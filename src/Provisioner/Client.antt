-- ===== src/Provisioner/Client.antt =====
-- internal/provisioner/provisioner.go: the cache of Proxmox clients, and the host of a node's URL
-- (internal/sshexec/client.go).

use controlplane.Prelude.{
  ℕ, Bool, false, not, ◌&&◌, ◌||◌, none, some, [], ◌∷◌, ◌++◌, Text, codes, ◌==◌, if◌then◌else◌,
}
use controlplane.World.{
  World, Env, node_missing, no_token, bad_cipher, bad_url, Result, ok, err, Action, on_ok,
}
use controlplane.Table.{exists, select}
use controlplane.Node.Store.{get_by_id, get_encrypted_token_by_id}

abbrev pub is_cached : ℕ → World → Bool
is_cached id w = exists (λ n. n == id) w.clients

-- The token is decrypted and the client of the node kept.
abbrev pub make_client : Env → ℕ → Text → Action (Result (Unit {0}))
make_client env id [] w = (err no_token, w)
make_client env id (c ∷ token) w =
    if env.decrypts (c ∷ token)
    then (ok tt, record w { clients = id ∷ w.clients })
    else (err bad_cipher, w)

unfoldable pub fetch_client : Env → ℕ → Action (Result (Unit {0}))
fetch_client env id = on_ok (get_by_id env id) λ found. elim found [
  | none ↦ λ w. (err node_missing, w)
  | some n ↦ on_ok (get_encrypted_token_by_id env id) (make_client env id)
]

-- `getClient`: the client of the node is in the cache afterwards, or an error comes back.
unfoldable pub get_client : Env → ℕ → Action (Result (Unit {0}))
get_client env id w =
    let fetched = fetch_client env id w in if is_cached id w then (ok tt, w) else fetched

unfoldable pub invalidate_client : ℕ → World → World
unfolding select
invalidate_client id w = record w { clients = select (λ n. not (n == id)) w.clients }

-- `strings.Contains(s, "://")`
abbrev pub has_scheme : Text → Bool
has_scheme (a ∷ b ∷ c ∷ s) = a == b':' && b == b'/' && c == b'/' || has_scheme (b ∷ c ∷ s)
has_scheme _ = false

unfoldable pub extract_host : Env → Text → Result Text
extract_host env url =
    let full = if has_scheme url then url else codes "https://" ++ url in
    elim (env.url_host full) [
      | none ↦ err bad_url
      | some [] ↦ err bad_url
      | some (c ∷ h) ↦ ok (c ∷ h)
    ]
