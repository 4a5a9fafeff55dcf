-- ===== src/Provisioner/Quiet.antt =====
-- What leaves the status of a tenant and the memory of every node alone.
use controlplane.Prelude.{
  ℕ, ◌≡◌, refl, ◌∙◌, Bool, true, false, ◌∷◌, if◌then◌else◌, Text, String, Bool-cases, inl, inr,
}
use controlplane.Table.{update, exists, Unique, Unique-update}
use controlplane.World.{
  World, Env, Tenant, Result, ok, err, log, sql, Statement, Call, Action, call, query, on_ok,
  exec_tenants,
}
use controlplane.Tenant.Store.{tenant_id, set_lxc_ip, set_dashboard_token, set_health_status}
use controlplane.Tenant.Status.{status_of, status_in-update_other}

pub record Quiet (t : ℕ) (w v : World) : Type 0 where
  pub nodes_kept : v.nodes ≡ w.nodes
  pub status_kept : status_of t v ≡ status_of t w
  pub unique_kept : Unique tenant_id w.tenants → Unique tenant_id v.tenants

-- An action, and a function of the world, that are quiet wherever they start.
pub record Still {A : Type 0} (t : ℕ) (m : Action A) : Type 0 where
  pub quiet : (w : World) → Quiet t w (m w).1

pub record Calm (t : ℕ) (f : World → World) : Type 0 where
  pub quiet : (w : World) → Quiet t w (f w)

module _ {t : ℕ} where
  pub Quiet-refl : (w : World) → Quiet t w w
  Quiet-refl w = record { nodes_kept = refl; status_kept = refl; unique_kept = λ u. u }

  pub Quiet-trans : {u v w : World} → Quiet t u v → Quiet t v w → Quiet t u w
  Quiet-trans p q = record {
    nodes_kept = q.nodes_kept ∙ p.nodes_kept;
    status_kept = q.status_kept ∙ p.status_kept;
    unique_kept = λ u. q.unique_kept (p.unique_kept u);
  }

  -- The tables are as they were.
  pub Quiet-same : (w v : World) → v.nodes ≡ w.nodes → v.tenants ≡ w.tenants → Quiet t w v
  Quiet-same w v n e = record { nodes_kept = n; status_kept = rw e refl; unique_kept = λ u. rw e u }

  pub Quiet-if :
      (b : Bool) (w u v : World) → Quiet t w u → Quiet t w v → Quiet t w (if b then u else v)
  Quiet-if true w u v p q = p
  Quiet-if false w u v p q = q

  pub Quiet-branch :
      {A : Type 0} (b : Bool) (w : World) (r s : A × World)
      → Quiet t w r.1
      → Quiet t w s.1
      → Quiet t w (if b then r else s).1
  Quiet-branch true w r s p q = p
  Quiet-branch false w r s p q = q

  pub answer-Still : {A : Type 0} (a : A) → Still t (λ w. (a, w))
  answer-Still a = record { quiet = Quiet-refl }

  pub on_ok-Still :
      {A B : Type 0} (m : Action (Result A)) (f : A → Action (Result B))
      → Still t m
      → ((a : A) → Still t (f a))
      → Still t (on_ok m f)
  unfolding on_ok
  on_ok-Still {A} {B} m f still rest = record { quiet = λ w. go (m w) w (still.quiet w) }
    where
      go :
          (r : Result A × World) (w : World)
          → Quiet t w r.1
          → Quiet t w
              (elim r.0 as (λ _. Result B × World) [ ok a ↦ f a r.1 | err e ↦ (err e, r.1) ]).1
      go (ok a, v) w q = Quiet-trans q ((rest a).quiet v)
      go (err e, v) w q = q

  pub call-Still : (env : Env) (c : Call) → Still t (call env c)
  unfolding call
  call-Still env c = record { quiet = λ w. Quiet-same _ _ refl refl }

  pub query-Still :
      {A : Type 0} (env : Env) (c : Statement) (f : World → A) → Still t (query env c f)
  unfolding query
  query-Still env c f = record { quiet = λ w. Quiet-same _ _ refl refl }

  -- A statement on columns other than the key and the status.
  pub exec-Still :
      (env : Env) (c : Statement) (p : Tenant → Bool) (f : Tenant → Tenant)
      (missed : Result (Unit {0}))
      → ((t : Tenant) → (f t).id ≡ t.id)
      → ((t : Tenant) → (f t).status ≡ t.status)
      → Still t (exec_tenants env c p f missed)
  unfolding exec_tenants
  exec-Still env c p f missed key same = record {
    quiet = λ w. elim (Bool-cases (env.fails (sql c ∷ w.trace))) [
      | inl failed ↦ rw failed (logged w)
      | inr answered ↦ rw answered (elim (Bool-cases (exists p w.tenants)) [
        | inl hit ↦ rw hit (changed w)
        | inr miss ↦ rw miss (logged w)
      ])
    ];
  }
    where
      logged : (w : World) → Quiet t w (log (sql c) w)
      logged w = Quiet-same _ _ refl refl

      changed : (w : World) → Quiet t w (record (log (sql c) w) { tenants = update p f w.tenants })
      changed w = record {
        nodes_kept = refl;
        status_kept = status_in-update_other t p f key same w.tenants;
        unique_kept = Unique-update tenant_id p f key w.tenants;
      }

  pub set_lxc_ip-Still : (env : Env) (id : ℕ) (ip : Text) → Still t (set_lxc_ip env id ip)
  unfolding set_lxc_ip
  set_lxc_ip-Still env id ip = exec-Still env _ _ _ _ (λ _. refl) (λ _. refl)

  pub set_dashboard_token-Still :
      (env : Env) (id : ℕ) (token : Text) → Still t (set_dashboard_token env id token)
  unfolding set_dashboard_token
  set_dashboard_token-Still env id token = exec-Still env _ _ _ _ (λ _. refl) (λ _. refl)

  pub set_health_status-Still :
      (env : Env) (id : ℕ) (status : String) → Still t (set_health_status env id status)
  unfolding set_health_status
  set_health_status-Still env id status = exec-Still env _ _ _ _ (λ _. refl) (λ _. refl)
