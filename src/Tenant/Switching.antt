-- ===== src/Tenant/Switching.antt =====
-- Where `Suspend` and `Resume` of internal/tenant/handler.go leave a tenant.
use controlplane.Prelude.{
  ℕ, ◌≡◌, refl, ◌∙◌, sym, ap, ◌⊎◌, inl, inr, false, Option, none, some, ◌∷◌, arith, Bool-cases,
}
use controlplane.Table.{Unique, find}
use controlplane.World.{
  World, Env, Tenant, Status, active, suspended, is_status, Error, state_conflict, Result, ok, err,
  sql, tenant_get, tenant_set_suspended, tenant_set_resumed, History, query,
}
use controlplane.Tenant.Store.{tenant_id, with_status, get_by_id, set_suspended, set_resumed}
use controlplane.Tenant.Status.{status_of, status_in, transition_moves}
use controlplane.Tenant.Lifecycle.{Service, Actor, audit}
use controlplane.Tenant.Handler.{
  Reply, sends, refuses, Switch, suspension, resumption, confirm, act_on, switch_container,
  mark_error, switch_found, switch,
}
use controlplane.Provisioner.Quiet.{Quiet, Still, Quiet-refl, Quiet-same, query-Still}
use controlplane.Provisioner.Containers.{suspend-Still, resume-Still}
use controlplane.Tenant.Marking.{is_status-eq, MarkOf, transition-MarkOf}

-- A reply that sends the tenant leaves it in the status asked for. A refusal leaves it in the status it
-- had, except for the one that could not read the tenant afterwards.
abbrev pub SwitchOf : {A : Type 0} → ℕ → Status → World → Reply A × World → Type 0
SwitchOf id to w (sends c t, v) = status_of id v ≡ some to
SwitchOf id to w (refuses c m, v) =
    (status_of id v ≡ status_of id w)
    ⊎ ((status_of id v ≡ some to) × (c ≡ 500) × (m ≡ "failed to get tenant"))

-- What the proof needs of a switch: its statements, and that its container call is quiet.
pub record Switches (env : Env) (k : Switch) (id : ℕ) (to : Status) : Type 0 where
  pub marked :
      (w : World)
      → Unique tenant_id w.tenants
      → status_of id w ≡ some k.from
      → MarkOf id to w (k.mark env id w)
  pub undone :
      (w : World)
      → Unique tenant_id w.tenants
      → status_of id w ≡ some to
      → status_of id (k.undo env id w).1 ≡ some k.from
  pub acts : (node vmid : ℕ) → Still id (k.act env node vmid)

audit-Quiet :
    (svc : Service) (k : Switch) (actor : Actor) (id : ℕ) (w : World)
    → Quiet id w (audit svc k.deed id actor w)
unfolding audit
audit-Quiet svc k actor id w = elim (Bool-cases svc.audited) [
  | inl on ↦ rw on (Quiet-same _ _ refl refl)
  | inr off ↦ rw off (Quiet-refl w)
]

module _ (env : Env) (svc : Service) (k : Switch) (actor : Actor) (id : ℕ) (to : Status)
    (can : Switches env k id to) where
  act_on-Still : (t : Tenant) → Still id (act_on env k t)
  act_on-Still t = record { quiet = λ w. go w t.lxc_id }
    where
      go :
          (w : World) (o : Option ℕ)
          → Quiet id w
              (elim o as (λ _. Result (Unit {0}) × World) [
                | none ↦ (ok tt, w)
                | some vmid ↦ k.act env t.node_id vmid w
              ]).1
      go w none = Quiet-refl w
      go w (some vmid) = (can.acts t.node_id vmid).quiet w

  confirm-SwitchOf :
      (w v : World) → status_of id v ≡ some to → SwitchOf id to w (confirm env svc k actor id v)
  unfolding confirm
  confirm-SwitchOf w v now =
      go (get_by_id env id v1)
        (reads.status_kept ∙ (audit-Quiet svc k actor id v).status_kept ∙ now)
    where
      v1 : World
      v1 = audit svc k.deed id actor v

      reads : Quiet id v1 (get_by_id env id v1).1
      reads =
          unfold get_by_id in
          (query-Still env tenant_get (λ u. find tenant_id id u.tenants)).quiet v1

      go :
          (r : Result (Option Tenant) × World)
          → status_of id r.1 ≡ some to
          → SwitchOf id to w (
            elim r.0 as (λ _. Reply (Option Tenant)) [
              | err e ↦ refuses 500 "failed to get tenant"
              | ok t ↦ sends 200 t
            ],
            r.1,
          )
      go (ok t, u) h = h
      go (err e, u) h = inr (h, refl, refl)

  container-SwitchOf :
      (t : Tenant) (w v : World)
      → status_of id w ≡ some k.from
      → Unique tenant_id v.tenants
      → status_of id v ≡ some to
      → SwitchOf id to w (switch_container env svc k actor id t v)
  unfolding switch_container
  container-SwitchOf t w v before unique now = go (act_on env k t v) ((act_on-Still t).quiet v)
    where
      go :
          (r : Result (Unit {0}) × World)
          → Quiet id v r.1
          → SwitchOf id to w (elim r.0 as (λ _. Reply (Option Tenant) × World) [
            | ok _ ↦ confirm env svc k actor id r.1
            | err e ↦ (refuses 500 k.not_done, (k.undo env id r.1).1)
          ])
      go (ok _, u) q = confirm-SwitchOf w u (q.status_kept ∙ now)
      go (err e, u) q = inl (can.undone u (q.unique_kept unique) (q.status_kept ∙ now) ∙ sym before)

  pub found-SwitchOf :
      (t : Tenant) (w : World)
      → Unique tenant_id w.tenants
      → status_of id w ≡ some t.status
      → SwitchOf id to w (switch_found env svc k actor id t w)
  unfolding switch_found
  found-SwitchOf t w unique now = elim (Bool-cases (is_status t.status k.from)) [
    | inr other ↦ rw (SwitchOf, other) (inl refl)
    | inl same ↦ rw (SwitchOf, same) (starts (now ∙ ap some (is_status-eq t.status k.from same)))
  ]
    where
      mark_error-SwitchOf :
          (e : Error) (v : World)
          → status_of id v ≡ status_of id w
          → SwitchOf id to w (mark_error k e, v)
      mark_error-SwitchOf state_conflict v h = inl h
      mark_error-SwitchOf _ v h = inl h

      starts :
          status_of id w ≡ some k.from
          → SwitchOf id to w (elim (k.mark env id w).0 as (λ _. Reply (Option Tenant) × World) [
            | err e ↦ (mark_error k e, (k.mark env id w).1)
            | ok _ ↦ switch_container env svc k actor id t (k.mark env id w).1
          ])
      starts before = go (k.mark env id w) (can.marked w unique before)
        where
          go :
              (r : Result (Unit {0}) × World)
              → MarkOf id to w r
              → SwitchOf id to w (elim r.0 as (λ _. Reply (Option Tenant) × World) [
                | err e ↦ (mark_error k e, r.1)
                | ok _ ↦ switch_container env svc k actor id t r.1
              ])
          go (ok _, v) (kept, h) = container-SwitchOf t w v before kept h
          go (err e, v) h = mark_error-SwitchOf e v h

  switch-SwitchOf :
      (w : World) → Unique tenant_id w.tenants → SwitchOf id to w (switch env svc k actor id w)
  unfolding switch
  switch-SwitchOf w unique = go (get_by_id env id w) reads found
    where
      reads : Quiet id w (get_by_id env id w).1
      reads =
          unfold get_by_id in
          (query-Still env tenant_get (λ u. find tenant_id id u.tenants)).quiet w

      Read : Result (Option Tenant) → Type 0
      Read (ok (some t)) = status_of id w ≡ some t.status
      Read _ = Unit

      row : (o : Option Tenant) → find tenant_id id w.tenants ≡ o → Read (ok o)
      row none e = tt
      row (some t) e = unfold status_in in ground arith

      found : Read (get_by_id env id w).0
      found =
          unfold get_by_id in
          unfold query in
          elim (Bool-cases (env.fails (sql tenant_get ∷ w.trace))) [
            | inl down ↦ rw (Read, down) tt
            | inr up ↦ rw (Read, up) (row (find tenant_id id w.tenants) refl)
          ]

      go :
          (r : Result (Option Tenant) × World)
          → Quiet id w r.1
          → Read r.0
          → SwitchOf id to w (elim r.0 as (λ _. Reply (Option Tenant) × World) [
            | err e ↦ (refuses 500 "failed to get tenant", r.1)
            | ok none ↦ (refuses 404 "tenant not found", r.1)
            | ok (some t) ↦ switch_found env svc k actor id t r.1
          ])
      go (err e, v) q h = inl q.status_kept
      go (ok none, v) q h = inl q.status_kept
      go (ok (some t), v) q h =
          from_here (switch_found env svc k actor id t v)
            (found-SwitchOf t v (q.unique_kept unique) (q.status_kept ∙ h))
        where
          from_here : (r : Reply (Option Tenant) × World) → SwitchOf id to v r → SwitchOf id to w r
          from_here (sends c x, u) g = g
          from_here (refuses c m, u) (inl same) = inl (same ∙ q.status_kept)
          from_here (refuses c m, u) (inr late) = inr late

suspension-Switches :
    (env : Env) (id : ℕ)
    → ((h : History) → env.fails (sql tenant_set_resumed ∷ h) ≡ false)
    → Switches env suspension id suspended
suspension-Switches env id answers = record {
  marked = λ w unique now.
      unfold set_suspended in
      transition-MarkOf env tenant_set_suspended id (λ s. is_status s active) active suspended w
        unique now refl;
  undone = λ w unique now.
      unfold set_resumed in
      (transition_moves env tenant_set_resumed id (λ s. is_status s suspended) (with_status active)
        suspended active (λ _. refl) (λ _. refl) w unique now (answers w.trace) refl).1;
  acts = λ node vmid. suspend-Still env node vmid;
}

resumption-Switches :
    (env : Env) (id : ℕ)
    → ((h : History) → env.fails (sql tenant_set_suspended ∷ h) ≡ false)
    → Switches env resumption id active
resumption-Switches env id answers = record {
  marked = λ w unique now.
      unfold set_resumed in
      transition-MarkOf env tenant_set_resumed id (λ s. is_status s suspended) suspended active w
        unique now refl;
  undone = λ w unique now.
      unfold set_suspended in
      (transition_moves env tenant_set_suspended id (λ s. is_status s active)
        (with_status suspended) active suspended (λ _. refl) (λ _. refl) w unique now
        (answers w.trace) refl).1;
  acts = λ node vmid. resume-Still env node vmid;
}

-- Whatever fails, a request to suspend a tenant that is answered with the tenant leaves it suspended, and
-- one that is refused leaves it in the status it had, save when only the last read of the tenant fails. The
-- database carries out the statement that takes the suspension back, and the keys are unique.
pub switch-suspension :
    (env : Env) (svc : Service) (id : ℕ) (w : World)
    → ((h : History) → env.fails (sql tenant_set_resumed ∷ h) ≡ false)
    → Unique tenant_id w.tenants
    → SwitchOf id suspended w (switch env svc suspension none id w)
switch-suspension env svc id w answers unique =
    switch-SwitchOf env svc suspension none id suspended (suspension-Switches env id answers) w
      unique

-- Whatever fails, a request to resume a tenant that is answered with the tenant leaves it active, and one
-- that is refused leaves it in the status it had, save when only the last read of the tenant fails. The
-- database carries out the statement that takes the resumption back, and the keys are unique.
pub switch-resumption :
    (env : Env) (svc : Service) (id : ℕ) (w : World)
    → ((h : History) → env.fails (sql tenant_set_suspended ∷ h) ≡ false)
    → Unique tenant_id w.tenants
    → SwitchOf id active w (switch env svc resumption none id w)
switch-resumption env svc id w answers unique =
    switch-SwitchOf env svc resumption none id active (resumption-Switches env id answers) w unique
