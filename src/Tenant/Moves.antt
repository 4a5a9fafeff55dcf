-- ===== src/Tenant/Moves.antt =====
-- The diagram of the statuses of a tenant, which the statements of internal/tenant/store.go follow.
use controlplane.Prelude.{
  ℕ, ◌≡◌, refl, inl, inr, Bool, true, false, some, List, arith, Option-cases, Bool-cases,
  if◌then◌else◌, ◌∷◌, ◌∙◌,
}
use controlplane.Table.{update, exists, find, find-update}
use controlplane.World.{
  World, Env, Tenant, Status, provisioning, active, suspended, error, deleting, deleted, Statement,
  sql, Result, exec_tenants,
}
use controlplane.Tenant.Store.{tenant_id, at, transition}
use controlplane.Tenant.Status.{status_in, status_of, status_in-update_other}

-- One arrow for each `UPDATE tenants SET status = … WHERE … status IN (…)`.
pub data Move : Status → Status → Type 0 where
  suspends : Move active suspended
  resumes : Move suspended active
  activates : Move provisioning active
  fails_to_provision : Move provisioning error
  fails_to_delete : Move deleting error
  deletes_active : Move active deleting
  deletes_suspended : Move suspended deleting
  deletes_error : Move error deleting
  ends : Move deleting deleted

-- A walk along the arrows.
pub data Walk : Status → Status → Type 0 where
  stay : {s : Status} → Walk s s
  step : {r s t : Status} → Move r s → Walk s t → Walk r t

pub Walk-append : {r s t : Status} → Walk r s → Walk s t → Walk r t
Walk-append stay b = b
Walk-append (step m a) b = step m (Walk-append a b)

-- After a change of the world the tenant `id`, that was in status `s`, is there with a status that
-- a walk leads to.
pub record Walks (id : ℕ) (w v : World) : Type 0 where
  pub walk :
      (s : Status) → status_of id w ≡ some s → (u : Status) × (status_of id v ≡ some u) × Walk s u

moved :
    (id k : ℕ) (from : Status → Bool) (f : Tenant → Tenant) (u : Status) (rows : List Tenant)
    → ((t : Tenant) → (f t).id ≡ t.id)
    → ((t : Tenant) → (f t).status ≡ u)
    → ((s : Status) → from s ≡ true → Move s u)
    → (s : Status) → status_in id rows ≡ some s
    → (v : Status) × (status_in id (update (at k (λ t. from t.status)) f rows) ≡ some v) × Walk s v
unfolding status_in
moved id k from f u rows key sets arrow s now = elim (Option-cases (find tenant_id id rows)) [
  | inl e ↦ ground arith
  | inr (t, e) ↦ elim (Bool-cases (at k (λ t. from t.status) t)) [
    | inl hit ↦ (
      u,
      ground (arith, find-update tenant_id id (at k (λ t. from t.status)) f key rows, sets t),
      step (arrow s (ground arith)) stay,
    )
    | inr miss ↦
        (s, ground (arith, find-update tenant_id id (at k (λ t. from t.status)) f key rows), stay)
  ]
]

module _ {id : ℕ} where
  pub Walks-same : (w v : World) → status_of id v ≡ status_of id w → Walks id w v
  Walks-same w v e = record { walk = λ s now. (s, e ∙ now, stay) }

  pub Walks-trans : {u v w : World} → Walks id u v → Walks id v w → Walks id u w
  Walks-trans p q = record {
    walk = λ s now.
        let (t, later, a) = p.walk s now in
        let (r, last, b) = q.walk t later in (r, last, Walk-append a b);
  }

  pub Walks-branch :
      {A : Type 0} (b : Bool) (w : World) (r s : A × World)
      → Walks id w r.1
      → Walks id w s.1
      → Walks id w (if b then r else s).1
  Walks-branch true w r s p q = p
  Walks-branch false w r s p q = q

  -- A statement on other columns.
  pub exec-Walks :
      (env : Env) (c : Statement) (p : Tenant → Bool) (f : Tenant → Tenant)
      (missed : Result (Unit {0}))
      → ((t : Tenant) → (f t).id ≡ t.id)
      → ((t : Tenant) → (f t).status ≡ t.status)
      → (w : World) → Walks id w (exec_tenants env c p f missed w).1
  unfolding exec_tenants
  exec-Walks env c p f missed key same w =
      Walks-branch (env.fails (sql c ∷ w.trace)) w _ _ (Walks-same w _ refl) (
        Walks-branch (exists p w.tenants) w _ _
          (Walks-same w _ (status_in-update_other id p f key same w.tenants)) (Walks-same w _ refl))

  -- A transition follows its arrows, for whichever tenant it is sent.
  pub transition-Walks :
      (env : Env) (c : Statement) (k : ℕ) (from : Status → Bool) (f : Tenant → Tenant) (u : Status)
      → ((t : Tenant) → (f t).id ≡ t.id)
      → ((t : Tenant) → (f t).status ≡ u)
      → ((s : Status) → from s ≡ true → Move s u)
      → (w : World) → Walks id w (transition env c k from f w).1
  unfolding exec_tenants
  transition-Walks env c k from f u key sets arrow w =
      Walks-branch (env.fails (sql c ∷ w.trace)) w _ _ (Walks-same w _ refl) (
        Walks-branch (exists (at k (λ t. from t.status)) w.tenants) w _ _
          (record { walk = moved id k from f u w.tenants key sets arrow }) (Walks-same w _ refl))
