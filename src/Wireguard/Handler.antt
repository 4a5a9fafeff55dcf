-- ===== src/Wireguard/Handler.antt =====
-- internal/wireguard/handler.go. `none` for an id
-- is a text that is no UUID, and for a request a body that cannot be decoded. A failure of the tool `wg`
-- is logged only.
use controlplane.Prelude.{
  ℕ, Bool, true, false, not, ◌&&◌, ◌||◌, Option, none, some, List, ◌∷◌, if◌then◌else◌, Text, codes,
  text_eq, is_empty,
}
use controlplane.World.{Error, no_rows, no_update, unique_violation}
use controlplane.Wireguard.Model.{
  Peer, CreatePeerRequest, UpdatePeerRequest, Services, Tool, State, Config, Action, attempt, Deed,
  create_deed, update_deed, delete_deed, enable_deed, disable_deed,
}
use controlplane.Wireguard.Store.{list, list_by_type, get_by_id, update_peer, delete, set_enabled}
use controlplane.Wireguard.Validate.{validate_allowed_ips, validate_endpoint}
use controlplane.Wireguard.ClientConfig.{build_peer_config, generate_qr_code}
use controlplane.Wireguard.Service.{create_peer, apply_peer, remove_peer}

-- An error has its status; a creation answers the private key and the
-- client's configuration as well.
pub data Reply : Type 0 where
  failure : ℕ → Reply
  peers_reply : List Peer → Reply
  peer_reply : Peer → Reply
  created : Peer → Text → Text → Reply
  config_reply qr_reply : Text → Reply
  status_reply : Text → Reply

abbrev pub valid_peer_type : Text → Bool
valid_peer_type t =
    text_eq t (codes "admin") || text_eq t (codes "node") || text_eq t (codes "user")

abbrev pub refuse : {H : Type 0} → ℕ → Action H Reply
refuse code s = (failure code, s)

abbrev pub answer : {H : Type 0} → Reply → Action H Reply
answer r s = (r, s)

-- `auditStore.Log`, and the answer.
abbrev pub audited : {H : Type 0} → Deed → ℕ → Reply → Action H Reply
audited deed id r s = (r, record s { audits = (deed, id) ∷ s.audits })

abbrev pub on_hub : {H : Type 0} → (H → Bool × H) → State H → State H
on_hub f s = record s { hub = (f s.hub).1 }

-- The errors of `Delete` and `SetEnabled`.
abbrev pub row_status : Error → ℕ
row_status no_rows = 404
row_status e = 500

abbrev pub update_status : Error → ℕ
update_status no_update = 400
update_status e = 500

abbrev pub create_status : Error → ℕ
create_status unique_violation = 409
create_status e = 500

abbrev pub is_bad_request : Services → CreatePeerRequest → Bool
is_bad_request v rq =
    is_empty rq.name
    || is_empty rq.kind
    || not (valid_peer_type rq.kind)
    || (not (is_empty rq.allowed_ips) && not (validate_allowed_ips v rq.allowed_ips))
    || (not (is_empty rq.endpoint) && not (validate_endpoint v rq.endpoint))

module _ {H : Type 0} (v : Services) where
  unfoldable pub list_peers : Text → Action H Reply
  unfolding attempt list list_by_type
  list_peers kind s =
      let all = attempt (list v) (λ e. refuse 500) (λ ps. answer (peers_reply ps)) s in
      let some_kind =
        attempt (list_by_type v kind) (λ e. refuse 500) (λ ps. answer (peers_reply ps)) s in
      if not (is_empty kind) && valid_peer_type kind then some_kind else all

  abbrev pub found : Option Peer → (Peer → Action H Reply) → Action H Reply
  found none rest s = refuse 404 s
  found (some p) rest s = rest p s

  -- `GetByID`, with what every handler answers to its error and to a missing peer.
  unfoldable pub with_peer : ℕ → (Peer → Action H Reply) → Action H Reply
  unfolding attempt get_by_id
  with_peer id rest = attempt (get_by_id v id) (λ e. refuse 500) (λ p. found p rest)

  unfoldable pub get_peer : Option ℕ → Action H Reply
  unfolding with_peer
  get_peer none s = refuse 400 s
  get_peer (some id) s = with_peer id (λ p. answer (peer_reply p)) s

  unfoldable pub create_peer_handler : Config → Option CreatePeerRequest → Action H Reply
  unfolding attempt create_peer
  create_peer_handler c none s = refuse 400 s
  create_peer_handler c (some rq) s =
      if is_bad_request v rq
      then refuse 400 s
      else attempt (create_peer v c rq) (λ e. refuse (create_status e))
          (λ made.
            audited create_deed made.0.id
              (created made.0 made.1 (build_peer_config v c made.0 made.1)))
          s

  unfoldable pub update_peer_handler : Option ℕ → Option UpdatePeerRequest → Action H Reply
  unfolding attempt update_peer
  update_peer_handler none rq s = refuse 400 s
  update_peer_handler (some id) none s = refuse 400 s
  update_peer_handler (some id) (some rq) s =
      attempt (update_peer v id rq) (λ e. refuse (update_status e))
        (λ p. found p λ q. audited update_deed id (peer_reply q)) s

module _ {H : Type 0} (v : Services) (tool : Tool H) (c : Config) where
  unfoldable pub delete_found : ℕ → Peer → Action H Reply
  unfolding attempt delete remove_peer
  delete_found id p s =
      attempt (delete v id) (λ e. refuse (row_status e))
        (λ done. audited delete_deed id (status_reply (codes "deleted")))
        (on_hub (remove_peer v tool c p.public_key) s)

  unfoldable pub delete_peer : Option ℕ → Action H Reply
  unfolding with_peer delete_found
  delete_peer none s = refuse 400 s
  delete_peer (some id) s = with_peer v id (delete_found id) s

  abbrev pub apply_found : Option Peer → State H → State H
  apply_found none s = s
  apply_found (some p) s = on_hub (apply_peer v tool c p) s

  unfoldable pub enable_peer : Option ℕ → Action H Reply
  unfolding attempt set_enabled get_by_id apply_peer
  enable_peer none s = refuse 400 s
  enable_peer (some id) s =
      let enabled = audited enable_deed id (status_reply (codes "enabled")) in
      attempt (set_enabled v id true) (λ e. refuse (row_status e))
        (λ done. attempt (get_by_id v id) (λ e. enabled) (λ p w. enabled (apply_found p w))) s

  unfoldable pub disable_found : ℕ → Peer → Action H Reply
  unfolding attempt set_enabled remove_peer
  disable_found id p =
      attempt (set_enabled v id false) (λ e. refuse (row_status e))
        (λ done w.
          audited disable_deed id (status_reply (codes "disabled"))
            (on_hub (remove_peer v tool c p.public_key) w))

  unfoldable pub disable_peer : Option ℕ → Action H Reply
  unfolding with_peer disable_found
  disable_peer none s = refuse 400 s
  disable_peer (some id) s = with_peer v id (disable_found id) s

abbrev pub hidden_key : Text
hidden_key = codes "<PRIVATE_KEY>"

abbrev pub qr_or_failure : Services → Option Text → Reply
qr_or_failure v none = failure 500
qr_or_failure v (some png) = qr_reply (v.encode_base64 png)

module _ {H : Type 0} (v : Services) (c : Config) where
  unfoldable pub get_peer_config : Option ℕ → Action H Reply
  unfolding with_peer build_peer_config
  get_peer_config none s = refuse 400 s
  get_peer_config (some id) s =
      with_peer v id (λ p. answer (config_reply (build_peer_config v c p hidden_key))) s

  unfoldable pub get_peer_qr : Option ℕ → Action H Reply
  unfolding with_peer build_peer_config
  get_peer_qr none s = refuse 400 s
  get_peer_qr (some id) s =
      with_peer v id
        (λ p. answer (qr_or_failure v (generate_qr_code v (build_peer_config v c p hidden_key)))) s
