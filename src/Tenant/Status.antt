-- ===== src/Tenant/Status.antt =====
-- The status of one tenant, as the statements of internal/tenant/store.go change it.
use controlplane.Prelude.{
  ℕ, ◌≡◌, inl, inr, Bool, true, false, Option, none, some, List, ◌∷◌, arith, ==-refl, Option-cases,
}
use controlplane.Table.{update, exists, find, find-update, find-keyed, exists-keyed, Unique}
use controlplane.World.{
  World, Env, Tenant, Status, ok, err, exec_tenants, log, sql, Statement, state_conflict,
}
use controlplane.Tenant.Store.{tenant_id, at, transition}

unfoldable pub status_in : ℕ → List Tenant → Option Status
unfolding find
status_in id rows = elim (find tenant_id id rows) [ none ↦ none | some t ↦ some t.status ]

abbrev pub status_of : ℕ → World → Option Status
status_of id w = status_in id w.tenants

-- A statement that sets other columns keeps every status.
pub status_in-update_other :
    (id : ℕ) (p : Tenant → Bool) (f : Tenant → Tenant)
    → ((t : Tenant) → (f t).id ≡ t.id)
    → ((t : Tenant) → (f t).status ≡ t.status)
    → (rows : List Tenant) → status_in id (update p f rows) ≡ status_in id rows
unfolding status_in
status_in-update_other id p f key same rows = elim (Option-cases (find tenant_id id rows)) [
  | inl e ↦ ground (arith, find-update tenant_id id p f key rows)
  | inr (t, e) ↦ ground (arith, find-update tenant_id id p f key rows, same t)
]

-- A transition moves the status of its tenant, if it is there with a status to start from.
pub status_in-transition :
    (id : ℕ) (from : Status → Bool) (f : Tenant → Tenant) (s u : Status)
    → ((t : Tenant) → (f t).id ≡ t.id)
    → ((t : Tenant) → (f t).status ≡ u)
    → (rows : List Tenant) → status_in id rows ≡ some s
    → from s ≡ true
    → status_in id (update (at id (λ t. from t.status)) f rows) ≡ some u
unfolding status_in
status_in-transition id from f s u key sets rows now starts =
    elim (Option-cases (find tenant_id id rows)) [
      | inl e ↦ ground arith
      | inr (t, e) ↦ ground (
        arith,
        find-update tenant_id id (at id (λ t. from t.status)) f key rows,
        find-keyed tenant_id id rows t,
        ==-refl id,
        sets t,
      )
    ]

pub exists-at :
    (id : ℕ) (from : Status → Bool) (rows : List Tenant) (s : Status)
    → Unique tenant_id rows
    → status_in id rows ≡ some s
    → exists (at id (λ t. from t.status)) rows ≡ from s
unfolding status_in
exists-at id from rows s u now = elim (Option-cases (find tenant_id id rows)) [
  | inl e ↦ ground arith
  | inr (t, e) ↦ ground (arith, exists-keyed tenant_id id (λ t. from t.status) rows u)
]

-- The effect of a transition that the database carries out.
module _ (env : Env) (c : Statement) (id : ℕ) (from : Status → Bool) (f : Tenant → Tenant)
    (s u : Status) (key : (t : Tenant) → (f t).id ≡ t.id) (sets : (t : Tenant) → (f t).status ≡ u)
    (w : World) (unique : Unique tenant_id w.tenants) (now : status_of id w ≡ some s)
    (answers : env.fails (sql c ∷ w.trace) ≡ false) where
  pub transition_moves :
      from s ≡ true
      → ((transition env c id from f w).0 ≡ ok tt)
        × (status_of id (transition env c id from f w).1 ≡ some u)
        × ((transition env c id from f w).1.nodes ≡ w.nodes)
  unfolding exec_tenants
  transition_moves starts = ground (
    arith,
    exists-at id from w.tenants s unique now,
    status_in-transition id from f s u key sets w.tenants now starts,
  )

  pub transition_refused :
      from s ≡ false → transition env c id from f w ≡ (err state_conflict, log (sql c) w)
  unfolding exec_tenants
  transition_refused stops = ground (arith, exists-at id from w.tenants s unique now)
