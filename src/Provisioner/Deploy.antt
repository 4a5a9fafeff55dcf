-- ===== src/Provisioner/Deploy.antt =====
-- internal/provisioner/provisioner.go: `deployFreeRadio`, the secrets that it writes, and the health
-- poll.
use controlplane.Prelude.{
  ℕ, zero, suc, Bool, true, false, not, ◌&&◌, List, [], ◌∷◌, Text, codes, ◌==◌, if◌then◌else◌,
}
use controlplane.World.{
  Env, Result, ok, err, unavailable, Action, on_ok, call, log, Call, generate_token, in_container,
  Command, install_docker, fetch_repo, write_env, bootstrap_certs, compose_up, health_probe,
}
use controlplane.Provisioner.Settings.{Config, is_empty}

-- `generateToken`: the reader of random bytes may fail.
unfoldable pub new_token : Env → Action (Result Text)
new_token env w =
    let w' = log generate_token w in
    (if env.fails w'.trace then err unavailable else ok (env.fresh_token w'.trace), w')

-- The loop of `generateDeploySecrets`.
unfoldable pub new_secrets : Env → ℕ → Action (Result (List Text))
new_secrets env zero w = (ok [], w)
new_secrets env (suc n) w =
    on_ok (new_token env) (λ t. on_ok (new_secrets env n) λ ts v. (ok (t ∷ ts), v)) w

-- Commands in the container, until one fails.
unfoldable pub in_sequence : Env → Text → ℕ → List Command → Action (Result (Unit {0}))
in_sequence env host vmid [] w = (ok tt, w)
in_sequence env host vmid (c ∷ cs) w =
    on_ok (call env (in_container host vmid c)) (λ _. in_sequence env host vmid cs) w

abbrev pub branch_or_default : Config → Text
branch_or_default c = if is_empty c.repo_branch then codes "dev" else c.repo_branch

abbrev pub before_secrets : Config → List Command
before_secrets c = install_docker ∷ fetch_repo c.app_dir c.repo_url (branch_or_default c) ∷ []

abbrev pub after_secrets : Config → ℕ → Text → List Text → List Command
after_secrets c tenant token secrets =
    write_env c.app_dir tenant token secrets
    ∷ bootstrap_certs c.app_dir
    ∷ compose_up c.app_dir
    ∷ health_probe
    ∷ []

unfoldable pub deploy_free_radio : Env → Config → Text → ℕ → ℕ → Text → Action (Result (Unit {0}))
deploy_free_radio env c host vmid tenant token =
    on_ok (in_sequence env host vmid (before_secrets c)) λ _.
      on_ok (new_secrets env 5)
        λ secrets. in_sequence env host vmid (after_secrets c tenant token secrets)

-- The loop of `waitForHealth`: `polls` is how often the clock lets it look before the deadline.
unfoldable pub wait_for_health : Env → ℕ → Call → Action Bool
wait_for_health env zero url w = (false, w)
wait_for_health env (suc polls) url w =
    let w1 = log url w in
    let again = wait_for_health env polls url w1 in
    if not (env.fails w1.trace) && env.http_status w1.trace == 200
    then (true, w1)
    else if env.cancelled w1.trace
    then (false, w1)
    else again
