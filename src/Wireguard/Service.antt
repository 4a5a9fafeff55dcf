-- ===== src/Wireguard/Service.antt =====
-- internal/wireguard/service.go
use controlplane.Prelude.{
  text_or_empty, or_default, ℕ, Bool, true, false, Option, none, some, List, [], ◌∷◌, ◌++◌, ltb,
  if◌then◌else◌, Text, codes, text_eq, is_empty,
}
use controlplane.Table.{exists}
use controlplane.Crypto.{encrypt, decrypt}
use controlplane.World.{Result, ok, err, unavailable}
use controlplane.Wireguard.Model.{
  Peer, CreatePeerRequest, Services, Tool, Config, Action, log, attempt, pass_on, private_key,
  preshared_key, nonce,
}
use controlplane.Wireguard.Store.{list, create, get_next_available_ip}
use controlplane.Wireguard.Validate.{split}

unfoldable pub new_service : Text → Text → Text → Text → Config
new_service encryption_key public_key endpoint cidr = record {
  encryption_key = encryption_key;
  hub_public_key = public_key;
  hub_endpoint = endpoint;
  network_cidr = or_default cidr (codes "10.10.0.0/24");
  iface = codes "wg0";
  dns_addr = codes "10.10.0.1";
  keepalive = 25;
}

abbrev pub with_interface : Text → Config → Config
with_interface name c = record c { iface = or_default name c.iface }

abbrev pub with_dns_addr : Text → Config → Config
with_dns_addr addr c = record c { dns_addr = or_default addr c.dns_addr }

-- A number of seconds that is not positive is 0 here.
abbrev pub with_keepalive : ℕ → Config → Config
with_keepalive seconds c = if ltb 0 seconds then record c { keepalive = seconds } else c

abbrev pub filled : Text → Option Text
filled t = if is_empty t then none else some t

abbrev pub new_peer : CreatePeerRequest → Text → Text → Text → Peer
new_peer rq public_key psk ip = record {
  id = 0;
  name = rq.name;
  public_key = public_key;
  preshared_key_encrypted = some psk;
  wg_ip = ip;
  allowed_ips = if is_empty rq.allowed_ips then ip ++ codes "/32" else rq.allowed_ips;
  endpoint = filled rq.endpoint;
  kind = rq.kind;
  tenant_id = filled rq.tenant_id;
  enabled = true;
}

abbrev pub or_unavailable : {A : Type 0} → Option A → Result A
or_unavailable none = err unavailable
or_unavailable (some a) = ok a

module _ {H : Type 0} (v : Services) where
  unfoldable pub generate_keypair : Action H (Result (Text × Text))
  generate_keypair s =
      let s' = log private_key s in
      let key = v.fresh_private_key s'.trace in
      (if v.fails s'.trace then err unavailable else ok (key, v.public_key_of key), s')

  unfoldable pub generate_preshared_key : Action H (Result Text)
  generate_preshared_key s =
      let s' = log preshared_key s in
      (if v.fails s'.trace then err unavailable else ok (v.fresh_preshared_key s'.trace), s')

  unfoldable pub encrypt_psk : Config → Text → Action H (Result Text)
  encrypt_psk c psk s =
      let s' = log nonce s in
      (or_unavailable (encrypt v.gcm (v.fresh_nonce s'.trace) psk c.encryption_key), s')

  abbrev pub with_private_key : Text → Peer → Action H (Result (Peer × Text))
  with_private_key key p s = (ok (p, key), s)

  -- The peer that was inserted, and the private key, which is not kept.
  unfoldable pub create_peer : Config → CreatePeerRequest → Action H (Result (Peer × Text))
  unfolding attempt generate_keypair generate_preshared_key encrypt_psk get_next_available_ip create
  create_peer c rq = attempt generate_keypair pass_on λ keys.
      attempt generate_preshared_key pass_on λ psk. attempt (encrypt_psk c psk) pass_on λ sealed.
        attempt (get_next_available_ip v c.network_cidr) pass_on
          λ ip. attempt (create v (new_peer rq keys.1 sealed ip)) pass_on (with_private_key keys.0)

abbrev pub endpoint_args : Text → List Text
endpoint_args endpoint = if is_empty endpoint then [] else codes "endpoint" ∷ endpoint ∷ []

abbrev pub peer_args : Config → Peer → List Text
peer_args c p =
    codes "set"
    ∷ c.iface
    ∷ codes "peer"
    ∷ p.public_key
    ∷ codes "allowed-ips"
    ∷ p.allowed_ips
    ∷ endpoint_args (text_or_empty p.endpoint)

abbrev pub removal_args : Config → Text → List Text
removal_args c key = codes "set" ∷ c.iface ∷ codes "peer" ∷ key ∷ codes "remove" ∷ []

-- With its preshared key on the standard input, if it has one.
abbrev pub keyed_args : Config → Peer → List Text
keyed_args c p = peer_args c p ++ codes "preshared-key" ∷ codes "/dev/stdin" ∷ []

unfoldable pub decrypt_psk : Services → Config → Text → Option Text
unfolding decrypt
decrypt_psk v c sealed = decrypt v.gcm sealed c.encryption_key

abbrev pub is_some {ℓ} : {A : Type ℓ} → Option A → Bool
is_some none = false
is_some (some a) = true

-- The lines that are base64.
unfoldable pub key_lines : Services → List Text → List Text
key_lines v [] = []
key_lines v (l ∷ ls) =
    let line = v.trim_space l in
    let rest = key_lines v ls in
    if is_empty line then rest else if is_some (v.base64 line) then line ∷ rest else rest

abbrev pub wg_keys : Services → Text → List Text
wg_keys v output = key_lines v (split 10 (v.trim_space output))

unfoldable pub enabled_keys : List Peer → List Text
enabled_keys [] = []
enabled_keys (p ∷ ps) =
    let rest = enabled_keys ps in if p.enabled then p.public_key ∷ rest else rest

unfoldable pub is_in : Text → List Text → Bool
unfolding exists
is_in key = exists (λ k. text_eq k key)

module _ {H : Type 0} (v : Services) (tool : Tool H) (c : Config) where
  abbrev pub apply_with : Peer → Option Text → H → Bool × H
  apply_with p none h = (false, h)
  apply_with p (some psk) h = tool.run (keyed_args c p) psk h

  -- `true` is a nil error.
  unfoldable pub apply_peer : Peer → H → Bool × H
  apply_peer p h =
      if is_empty (text_or_empty p.preshared_key_encrypted)
      then tool.run (peer_args c p) [] h
      else apply_with p (decrypt_psk v c (text_or_empty p.preshared_key_encrypted)) h

  unfoldable pub remove_peer : Text → H → Bool × H
  remove_peer key h = tool.run (removal_args c key) [] h

  unfoldable pub get_wg_peers : H → Option (List Text)
  get_wg_peers h = elim (tool.output (codes "show" ∷ c.iface ∷ codes "peers" ∷ []) h) [
    | none ↦ none
    | some output ↦ some (wg_keys v output)
  ]

  -- The first loop: every enabled peer is applied, a failure is logged only.
  unfoldable pub apply_all : List Peer → H → H
  unfolding apply_peer
  apply_all [] h = h
  apply_all (p ∷ ps) h = apply_all ps (if p.enabled then (apply_peer p h).1 else h)

  -- The second loop: a key that is not enabled is removed.
  unfoldable pub remove_others : List Text → List Text → H → H
  unfolding remove_peer
  remove_others enabled [] h = h
  remove_others enabled (k ∷ ks) h =
      remove_others enabled ks (if is_in k enabled then h else (remove_peer k h).1)

  unfoldable pub sync_hub : List Peer → Option (List Text) → H → H
  unfolding apply_all remove_others enabled_keys
  sync_hub peers none h = h
  sync_hub peers (some current) h = remove_others (enabled_keys peers) current (apply_all peers h)

  unfoldable pub sync_with : List Peer → Action H (Result (Unit {0}))
  unfolding get_wg_peers sync_hub
  sync_with peers s = (ok tt, record s { hub = sync_hub peers (get_wg_peers s.hub) s.hub })

  unfoldable pub sync_peers : Action H (Result (Unit {0}))
  unfolding attempt list sync_with
  sync_peers = attempt (list v) pass_on sync_with
