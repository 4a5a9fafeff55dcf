-- ===== src/Provisioner/FinishRuns.antt =====
-- The stages from the running container on are quiet: what they could not do is logged only.
use controlplane.Prelude.{ℕ, zero, suc, refl, Bool, Option, none, some, List, [], ◌∷◌, Text, arith}
use controlplane.World.{
  World, Env, Job, Node, Project, Tenant, Result, ok, err, Action, Call, Command, log,
}
use controlplane.Tenant.Store.{get_by_id}
use controlplane.Provisioner.Settings.{Config}
use controlplane.Provisioner.Client.{extract_host}
use controlplane.Provisioner.Steps.{when}
use controlplane.Provisioner.Deploy.{new_secrets, in_sequence, deploy_free_radio, wait_for_health}
use controlplane.Provisioner.Finish.{
  with_host, write_token_legacy, issue_token, auto_deploy, add_station, station_of, publish_route,
  check_health, check_port,
}
use controlplane.Provisioner.Provision.{Built, announce}
use controlplane.Provisioner.Quiet.{
  Still, Calm, Quiet-refl, Quiet-trans, Quiet-same, Quiet-if, answer-Still, on_ok-Still, call-Still,
  set_dashboard_token-Still, set_health_status-Still,
}
use controlplane.Provisioner.StageRuns.{new_token-Still}

module _ {t : ℕ} where
  drop-Calm : {A : Type 0} (m : Action A) → Still t m → Calm t (λ w. (m w).1)
  drop-Calm m s = record { quiet = s.quiet }

  when-Calm : (b : Bool) (f : World → World) → Calm t f → Calm t (when b f)
  unfolding when
  when-Calm b f calm = record { quiet = λ w. Quiet-if b w (f w) w (calm.quiet w) (Quiet-refl w) }

  compose-Calm : (f g : World → World) → Calm t f → Calm t g → Calm t (λ w. g (f w))
  compose-Calm f g p q = record { quiet = λ w. Quiet-trans (p.quiet w) (q.quiet (f w)) }

  with_host-Calm :
      (env : Env) (node : Node) (f : Text → World → World)
      → ((host : Text) → Calm t (f host))
      → Calm t (with_host env node f)
  with_host-Calm env node f calm = go (extract_host env node.proxmox_url)
    where
      go : (r : Result Text) → Calm t (λ w. elim r [ err e ↦ w | ok host ↦ f host w ])
      go (ok host) = calm host
      go (err e) = record { quiet = Quiet-refl }

  module _ (env : Env) where
    in_sequence-Still :
        (host : Text) (vmid : ℕ) (cs : List Command) → Still t (in_sequence env host vmid cs)
    unfolding in_sequence
    in_sequence-Still host vmid [] = answer-Still _
    in_sequence-Still host vmid (c ∷ cs) =
        on_ok-Still _ _ (call-Still env _) (λ _. in_sequence-Still host vmid cs)

    new_secrets-Still : (n : ℕ) → Still t (new_secrets env n)
    unfolding new_secrets
    new_secrets-Still zero = answer-Still _
    new_secrets-Still (suc n) =
        on_ok-Still _ _ (new_token-Still env)
          (λ _. on_ok-Still _ _ (new_secrets-Still n) (λ _. answer-Still _))

    deploy-Still :
        (c : Config) (host : Text) (vmid tenant : ℕ) (token : Text)
        → Still t (deploy_free_radio env c host vmid tenant token)
    unfolding deploy_free_radio
    deploy-Still c host vmid tenant token =
        on_ok-Still _ _ (in_sequence-Still _ _ _)
          (λ _. on_ok-Still _ _ (new_secrets-Still 5) (λ _. in_sequence-Still _ _ _))

    wait_for_health-Still : (polls : ℕ) (url : Call) → Still t (wait_for_health env polls url)
    unfolding wait_for_health
    wait_for_health-Still zero url = answer-Still _
    wait_for_health-Still (suc polls) url = record {
      quiet = λ w.
          let looked = Quiet-same {t = t} w (log url w) refl refl in
          ground (
            arith,
            looked,
            Quiet-trans looked ((wait_for_health-Still polls url).quiet (log url w)),
          );
    }

module _ {t : ℕ} (env : Env) (c : Config) (job : Job) where
  write_token_legacy-Calm :
      (node : Node) (vmid : ℕ) (token : Text) → Calm t (write_token_legacy env c node vmid token)
  unfolding write_token_legacy
  write_token_legacy-Calm node vmid token =
      when-Calm _ _ (with_host-Calm env node _ (λ host. drop-Calm _ (call-Still env _)))

  pub issue_token-Still : (node : Node) (vmid : ℕ) → Still t (issue_token env c job node vmid)
  unfolding issue_token
  issue_token-Still node vmid = record {
    quiet = λ w. Quiet-trans ((new_token-Still env).quiet w) (
        Quiet-trans ((write_token_legacy-Calm node vmid _).quiet _)
          ((when-Calm _ _ (drop-Calm _ (set_dashboard_token-Still env job.tenant_id _))).quiet _));
  }

  auto_deploy-Calm :
      (node : Node) (vmid : ℕ) (token : Text) → Calm t (auto_deploy env c job node vmid token)
  unfolding auto_deploy
  auto_deploy-Calm node vmid token =
      when-Calm _ _ (with_host-Calm env node _ (λ host. drop-Calm _ (deploy-Still env _ _ _ _ _)))

  station_of-Calm : (r : Result (Option Tenant)) → Calm t (station_of env job r)
  station_of-Calm (ok (some x)) = drop-Calm _ (call-Still env _)
  station_of-Calm (ok none) = record { quiet = Quiet-refl }
  station_of-Calm (err e) = record { quiet = Quiet-refl }

  add_station-Calm : Calm t (add_station env c job)
  unfolding add_station get_by_id
  add_station-Calm = when-Calm _ _ (record {
    quiet = λ w.
        Quiet-trans (Quiet-same {t = t} w _ refl refl)
          ((station_of-Calm (get_by_id env job.tenant_id w).0).quiet _);
  })

  publish_route-Calm : (ip : Text) → Calm t (publish_route env c job ip)
  unfolding publish_route
  publish_route-Calm ip = when-Calm _ _ (drop-Calm _ (call-Still env _))

  check_health-Calm : (p : Project) (ip : Text) → Calm t (check_health env job p ip)
  unfolding check_health
  check_health-Calm p ip = when-Calm _ _ (ports p.ports)
    where
      ports :
          (l : List ℕ) → Calm t (λ w. elim l [ [] ↦ w | port ∷ _ ↦ check_port env job p ip port w ])
      ports [] = record { quiet = Quiet-refl }
      ports (port ∷ _) = record {
        quiet = λ w.
            Quiet-trans ((wait_for_health-Still env _ _).quiet w)
              ((set_health_status-Still env job.tenant_id _).quiet _);
      }

  pub announce-Calm : (b : Built) → Calm t (announce env c job b)
  unfolding announce
  announce-Calm b = record {
    quiet = λ w. Quiet-trans ((auto_deploy-Calm b.node b.vmid b.token).quiet w) (
        Quiet-trans (add_station-Calm.quiet _) (
          Quiet-trans ((publish_route-Calm b.ip).quiet _)
            ((check_health-Calm b.project b.ip).quiet _)));
  }
