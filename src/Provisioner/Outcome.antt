-- ===== src/Provisioner/Outcome.antt =====
-- How a step of a provisioning run can end: it goes on, having changed neither a status nor a memory
-- figure, or it has returned through `fail_job`.
use controlplane.Prelude.{
  ℕ, ◌≡◌, refl, Option, none, some, String, Bool, true, false, if◌then◌else◌,
}
use controlplane.World.{World, Env, Job, Result, ok, err, Action, Call, Task, wait}
use controlplane.Provisioner.Steps.{
  Step, pure, ◌>>=◌, or_fail, present, best_effort, fail_job, cleanup_and_fail, run_task,
}
use controlplane.Provisioner.Provision.{always}
use controlplane.Provisioner.Quiet.{Quiet, Still, Quiet-refl, Quiet-trans, call-Still, on_ok-Still}

-- The world `v` is what `fail_job` makes of a world that is still quiet.
abbrev pub HasFailed : Env → Job → World → World → Type 0
HasFailed env job w v =
    (message : String) × (u : World) × Quiet job.tenant_id w u × (v ≡ fail_job env job message u)

abbrev pub Outcome : {A : Type 0} → Env → Job → World → Option A × World → Type 0
Outcome env job w (some a, v) = Quiet job.tenant_id w v
Outcome env job w (none, v) = HasFailed env job w v

pub record Runs {A : Type 0} (env : Env) (job : Job) (m : Step A) : Type 0 where
  pub outcome : (w : World) → Outcome env job w (m w)

-- A handler that ends the run.
pub record Fails (env : Env) (job : Job) (handler : World → World) : Type 0 where
  pub failed : (w : World) → HasFailed env job w (handler w)

Outcome-after :
    {A : Type 0} (env : Env) (job : Job) (u w : World) (r : Option A × World)
    → Quiet job.tenant_id u w
    → Outcome env job w r
    → Outcome env job u r
Outcome-after env job u w (some a, v) q h = Quiet-trans q h
Outcome-after env job u w (none, v) q (message, x, p, e) = (message, x, Quiet-trans q p, e)

pub run_task-Still :
    {t : ℕ} (env : Env) (start : Call) (task : Task) (vmid : ℕ)
    → Still t (run_task env start task vmid)
unfolding run_task
run_task-Still env start task vmid =
    on_ok-Still _ _ (call-Still env start) (λ _. call-Still env (wait task vmid))

module _ {env : Env} {job : Job} where
  pub pure-Runs : {A : Type 0} (a : A) → Runs env job (pure a)
  unfolding pure
  pure-Runs a = record { outcome = Quiet-refl }

  pub bind-Runs :
      {A B : Type 0} (m : Step B) (f : B → Step A)
      → Runs env job m
      → ((b : B) → Runs env job (f b))
      → Runs env job (m >>= f)
  unfolding ◌>>=◌
  bind-Runs {A} {B} m f runs rest = record { outcome = λ w. go w (m w) (runs.outcome w) }
    where
      go :
          (w : World) (r : Option B × World)
          → Outcome env job w r
          → Outcome {A = A} env job w (elim r.0 [ none ↦ (none, r.1) | some x ↦ f x r.1 ])
      go w (none, v) h = h
      go w (some x, v) h = Outcome-after env job w v (f x v) h ((rest x).outcome v)

  pub or_fail-Runs :
      {A : Type 0} (m : Action (Result A)) (handler : World → World)
      → Still job.tenant_id m
      → Fails env job handler
      → Runs env job (or_fail m handler)
  unfolding or_fail
  or_fail-Runs {A} m handler still fails = record { outcome = λ w. go w (m w) (still.quiet w) }
    where
      go :
          (w : World) (r : Result A × World)
          → Quiet job.tenant_id w r.1
          → Outcome {A = A} env job w
              (elim r.0 [ ok a ↦ (some a, r.1) | err _ ↦ (none, handler r.1) ])
      go w (ok a, v) q = q
      go w (err e, v) q =
          let (message, x, p, s) = fails.failed v in (message, x, Quiet-trans q p, s)

  pub present-Runs :
      {A : Type 0} (o : Option A) (handler : World → World)
      → Fails env job handler
      → Runs env job (present o handler)
  unfolding present
  present-Runs none handler fails = record { outcome = fails.failed }
  present-Runs (some a) handler fails = record { outcome = Quiet-refl }

  pub best_effort-Runs :
      {A : Type 0} (m : Action A) → Still job.tenant_id m → Runs env job (best_effort m)
  unfolding best_effort
  best_effort-Runs m still = record { outcome = still.quiet }

  pub always-Runs : {A : Type 0} (m : Action A) → Still job.tenant_id m → Runs env job (always m)
  unfolding always
  always-Runs m still = record { outcome = still.quiet }

  pub if-Runs :
      {A : Type 0} (b : Bool) (m k : Step A)
      → Runs env job m
      → Runs env job k
      → Runs env job (if b then m else k)
  if-Runs true m k p q = p
  if-Runs false m k p q = q

  pub fail_job-Fails : (message : String) → Fails env job (fail_job env job message)
  fail_job-Fails message = record { failed = λ w. (message, w, Quiet-refl w, refl) }

  pub cleanup-Fails :
      (vmid : ℕ) (message : String) → Fails env job (cleanup_and_fail env job vmid message)
  unfolding cleanup_and_fail
  cleanup-Fails vmid message = record {
    failed = λ w. (message, _, (run_task-Still env _ _ vmid).quiet w, refl);
  }

pub ruleset run_rules = (
  pure-Runs, bind-Runs, or_fail-Runs, present-Runs, best_effort-Runs, always-Runs, if-Runs,
  fail_job-Fails, cleanup-Fails,
)
