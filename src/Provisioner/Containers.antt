-- ===== src/Provisioner/Containers.antt =====
-- `Suspend` and `Resume` leave the tables alone.
use controlplane.World.{Env, stop_container, start_container, stop_task, start_task}
use controlplane.Provisioner.Teardown.{suspend, resume}
use controlplane.Provisioner.Quiet.{Still, on_ok-Still}
use controlplane.Provisioner.Outcome.{run_task-Still}
use controlplane.Provisioner.StageRuns.{get_client-Still}
use controlplane.Prelude.{ℕ}

module _ {t : ℕ} (env : Env) (node vmid : ℕ) where
  pub suspend-Still : Still t (suspend env node vmid)
  unfolding suspend
  suspend-Still =
      on_ok-Still _ _ (get_client-Still env node)
        λ _. run_task-Still env (stop_container vmid) stop_task vmid

  pub resume-Still : Still t (resume env node vmid)
  unfolding resume
  resume-Still =
      on_ok-Still _ _ (get_client-Still env node)
        λ _. run_task-Still env (start_container vmid) start_task vmid
