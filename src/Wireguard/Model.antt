-- ===== src/Wireguard/Model.antt =====
-- The state of internal/wireguard: the table wireguard_peers, newest first, and the state `H` of the hub
-- interface behind the tool `wg`. The tool, the key generation, the cipher and the database's failures
-- are parameters.
use controlplane.Prelude.{ℕ, Bool, Option, List, ◌∷◌, Text, if◌then◌else◌}
use controlplane.Crypto.{Gcm}
use controlplane.World.{Env, Result, ok, err, unavailable, Error}

pub record Peer : Type 0 where
  pub id : ℕ
  pub name : Text
  pub public_key : Text
  pub preshared_key_encrypted : Option Text
  pub wg_ip : Text
  pub allowed_ips : Text
  pub endpoint : Option Text
  pub kind : Text
  pub tenant_id : Option Text
  pub enabled : Bool

pub record CreatePeerRequest : Type 0 where
  pub name : Text
  pub kind : Text
  pub endpoint : Text
  pub tenant_id : Text
  pub allowed_ips : Text

pub record UpdatePeerRequest : Type 0 where
  pub name : Option Text
  pub endpoint : Option Text
  pub enabled : Option Bool

pub data Call : Type 0 where
  peer_list peer_list_by_type peer_get peer_insert peer_update peer_delete peer_set_enabled : Call
  begin_tx advisory_lock peer_ips commit_tx peer_by_tenant peer_list_enabled : Call
  private_key preshared_key nonce : Call

pub data Deed : Type 0 where
  create_deed update_deed delete_deed enable_deed disable_deed : Deed

pub record Services : Type 0 where
  pub fails : List Call → Bool
  pub fresh_id : List Call → ℕ
  -- `wgtypes`: a private key, its public key, a preshared key, as printed.
  pub fresh_private_key : List Call → Text
  pub public_key_of : Text → Text
  pub fresh_preshared_key : List Call → Text
  -- What internal/crypto is made from; the nonce is random.
  pub gcm : Gcm
  pub fresh_nonce : List Call → Option Text
  -- `base64.StdEncoding.DecodeString`, `strings.TrimSpace`, `net.SplitHostPort`, `strconv.Atoi` on a
  -- natural number.
  pub base64 : Text → Option Text
  pub trim_space : Text → Text
  pub split_host_port : Text → Option (Text × Text)
  pub atoi : Text → Option ℕ
  pub encode_base64 : Text → Text
  -- `netip.ParsePrefix` as printed: the address after that of the prefix, the prefix, and its length.
  pub network : Text → Option (Text × Text × ℕ)
  -- `%d`, and `qrcode.Encode` with the level and the size of the source.
  pub show_number : ℕ → Text
  pub qr_code : Text → Option Text
  -- `net/netip` and the printing of addresses.
  pub env : Env

-- `exec.Command("wg", …)` with its standard input, for its effect and for its output.
pub record Tool (H : Type 0) : Type 0 where
  pub run : List Text → Text → H → Bool × H
  pub output : List Text → H → Option Text

pub record State (H : Type 0) : Type 0 where
  pub peers : List Peer
  pub hub : H
  pub audits : List (Deed × ℕ)
  pub trace : List Call

pub record Config : Type 0 where
  pub encryption_key : Text
  pub hub_public_key : Text
  pub hub_endpoint : Text
  pub network_cidr : Text
  pub iface : Text
  pub dns_addr : Text
  pub keepalive : ℕ

abbrev pub Action : Type 0 → Type 0 → Type 0
Action H A = State H → A × State H

module _ {H : Type 0} where
  abbrev pub log : Call → State H → State H
  log c s = record s { trace = c ∷ s.trace }

  unfoldable pub query : {A : Type 0} → Services → Call → (State H → A) → Action H (Result A)
  query v c f s = let s' = log c s in (if v.fails s'.trace then err unavailable else ok (f s'), s')

  unfoldable pub attempt :
      {A B : Type 0} → Action H (Result A) → (Error → Action H B) → (A → Action H B) → Action H B
  attempt m bad good s = let (r, s') = m s in elim r [ ok a ↦ good a s' | err e ↦ bad e s' ]

  abbrev pub pass_on : {A : Type 0} → Error → Action H (Result A)
  pass_on e s = (err e, s)
