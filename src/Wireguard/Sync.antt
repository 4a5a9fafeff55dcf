-- ===== src/Wireguard/Sync.antt =====
-- `SyncPeers` against the set of enabled keys.
use controlplane.Prelude.{
  ◌≡◌, refl, sym, ap, ◌∙◌, Bool, true, false, not, ◌&&◌, ◌||◌, Option, some, List, [], ◌∷◌, Text,
  codes, text_eq, text_eq_iff, is_empty, text_or_empty, Bool-cases, inl, inr, All,
}
use mathlib.Core.Bool.{false≢true}
use controlplane.Table.{exists}
use controlplane.Wireguard.Model.{
  Peer, Services, Tool, State, Config, log, query, attempt, peer_list,
}
use controlplane.Wireguard.Store.{list}
use controlplane.Wireguard.Service.{
  removal_args, peer_args, keyed_args, decrypt_psk, wg_keys, enabled_keys, is_in, apply_peer,
  remove_peer, get_wg_peers, apply_all, remove_others, sync_hub, sync_with, sync_peers,
}

-- The tool as it is documented: a `set … peer K allowed-ips …` that it accepts puts the peer `K` on the
-- interface, `set … peer K remove` takes it off, `show … peers` prints the keys. `accepts` says which
-- arguments and input it accepts: well-formed keys, addresses and endpoints.
pub record Documented {H : Type 0} (v : Services) (tool : Tool H) (c : Config)
    (has : Text → H → Bool) (accepts : List Text → Text → Bool) : Type 0 where
  pub puts :
      (key : Text) (rest : List Text) (input : Text) (h : H) (k : Text)
      → accepts (codes "set" ∷ c.iface ∷ codes "peer" ∷ key ∷ codes "allowed-ips" ∷ rest) input
        ≡ true
      → has k
          (tool.run
            (codes "set" ∷ c.iface ∷ codes "peer" ∷ key ∷ codes "allowed-ips" ∷ rest)
            input
            h).1
        ≡ text_eq key k || has k h
  pub takes :
      (key : Text) (h : H) (k : Text)
      → has k (tool.run (removal_args c key) [] h).1 ≡ not (text_eq key k) && has k h
  pub shows :
      (h : H)
      → (out : Text) × (tool.output (codes "show" ∷ c.iface ∷ codes "peers" ∷ []) h ≡ some out)
        × ((k : Text) → has k h ≡ is_in k (wg_keys v out))

abbrev pub sealed_psk : Peer → Text
sealed_psk p = text_or_empty p.preshared_key_encrypted

-- If the row is enabled, its preshared key, if it has one, can be opened, and the tool accepts its command.
abbrev pub CanApply : Services → Config → (List Text → Text → Bool) → Peer → Type 0
CanApply v c accepts p =
    p.enabled ≡ true
    → (is_empty (sealed_psk p) ≡ true → accepts (peer_args c p) [] ≡ true)
      × (is_empty (sealed_psk p) ≡ false
          → (psk : Text) × (decrypt_psk v c (sealed_psk p) ≡ some psk)
            × (accepts (keyed_args c p) psk ≡ true))

or_true : (b : Bool) → (b || true) ≡ true
or_true true = refl
or_true false = refl

or_swap : (a b c : Bool) → (a || (b || c)) ≡ ((b || a) || c)
or_swap true true c = refl
or_swap true false c = refl
or_swap false true c = refl
or_swap false false c = refl

-- `i`: the key is enabled, `e`: it is the first one listed, `x`: it is listed later.
kept_first :
    (i e x b : Bool) → (e ≡ true → i ≡ true) → ((i || not x) && b) ≡ ((i || not (e || x)) && b)
kept_first true e x b h = refl
kept_first false true x b h = absurd (false≢true (h refl))
kept_first false false x b h = refl

gone_first :
    (i e x b : Bool)
    → (e ≡ true → i ≡ false)
    → ((i || not x) && (not e && b)) ≡ ((i || not (e || x)) && b)
gone_first true true x b h = absurd (false≢true (sym (h refl)))
gone_first false true true b h = refl
gone_first false true false b h = refl
gone_first true false x b h = refl
gone_first false false true b h = refl
gone_first false false false b h = refl

same_member :
    (key k : Text) (enabled : List Text)
    → text_eq key k ≡ true
    → is_in k enabled ≡ is_in key enabled
same_member key k enabled e = ap (λ t. is_in t enabled) (sym ((text_eq_iff key k).0 e))

only_enabled : (i x : Bool) → ((i || not x) && (i || x)) ≡ i
only_enabled true x = refl
only_enabled false true = refl
only_enabled false false = refl

module _ {H : Type 0} (v : Services) (tool : Tool H) (c : Config) (has : Text → H → Bool)
    (accepts : List Text → Text → Bool) (works : Documented v tool c has accepts) where
  apply_peer-has :
      (p : Peer) (h : H) (k : Text)
      → p.enabled ≡ true
      → CanApply v c accepts p
      → has k (apply_peer v tool c p h).1 ≡ (text_eq p.public_key k || has k h)
  unfolding apply_peer
  apply_peer-has p h k on can = elim (Bool-cases (is_empty (sealed_psk p))) [
    | inl plain ↦ rw plain (works.puts p.public_key _ [] h k ((can on).0 plain))
    | inr sealed ↦
        let (psk, opened, accepted) = (can on).1 sealed in
        rw (sealed, opened) (works.puts p.public_key _ psk h k accepted)
  ]

  -- After the first loop an interface has what it had and the enabled keys.
  apply_all-has :
      (ps : List Peer) (h : H) (k : Text)
      → All (CanApply v c accepts) ps
      → has k (apply_all v tool c ps h) ≡ (is_in k (enabled_keys ps) || has k h)
  unfolding apply_all enabled_keys is_in exists
  apply_all-has [] h k can = refl
  apply_all-has (p ∷ ps) h k (can, others) = elim (Bool-cases p.enabled) [
    | inl on ↦ rw on (
        apply_all-has ps (apply_peer v tool c p h).1 k others
        ∙ rw (apply_peer-has p h k on can)
            (or_swap (is_in k (enabled_keys ps)) (text_eq p.public_key k) (has k h)))
    | inr off ↦ rw off (apply_all-has ps h k others)
  ]

  -- The second loop takes off the listed keys that are not enabled.
  remove_others-has :
      (enabled ks : List Text) (h : H) (k : Text)
      → has k (remove_others v tool c enabled ks h)
        ≡ ((is_in k enabled || not (is_in k ks)) && has k h)
  unfolding remove_others is_in exists remove_peer
  remove_others-has enabled [] h k = ap (λ b. b && has k h) (sym (or_true (is_in k enabled)))
  remove_others-has enabled (key ∷ ks) h k = elim (Bool-cases (is_in key enabled)) [
    | inl kept ↦ rw kept (
        remove_others-has enabled ks h k
        ∙ kept_first (is_in k enabled) (text_eq key k) (is_in k ks) (has k h)
            (λ e. same_member key k enabled e ∙ kept))
    | inr gone ↦ rw gone (
        remove_others-has enabled ks (tool.run (removal_args c key) [] h).1 k
        ∙ rw (works.takes key h k) (
            gone_first (is_in k enabled) (text_eq key k) (is_in k ks) (has k h)
              (λ e. same_member key k enabled e ∙ gone)))
  ]

  sync_hub-has :
      (peers : List Peer) (current : Option (List Text)) (ks : List Text) (h : H) (k : Text)
      → All (CanApply v c accepts) peers
      → current ≡ some ks
      → has k h ≡ is_in k ks
      → has k (sync_hub v tool c peers current h) ≡ is_in k (enabled_keys peers)
  unfolding sync_hub
  sync_hub-has peers current ks h k valid e held = rw e (
      remove_others-has (enabled_keys peers) ks (apply_all v tool c peers h) k
      ∙ rw (apply_all-has peers h k valid, held)
          (only_enabled (is_in k (enabled_keys peers)) (is_in k ks)))

  sync_peers_ok :
      (s : State H)
      → v.fails (peer_list ∷ s.trace) ≡ false
      → sync_peers v tool c s ≡ sync_with v tool c s.peers (log peer_list s)
  unfolding sync_peers attempt list query
  sync_peers_ok s answers = rw (sync_peers, attempt, list, query, answers) refl

  -- A synchronisation that can read the table leaves exactly the enabled keys on the interface, whatever was
  -- on it, if the tool works as documented and, of every enabled row, the preshared key can be
  -- opened and the tool accepts the command.
  pub sync_peers-has :
      (s : State H) (k : Text)
      → All (CanApply v c accepts) s.peers
      → v.fails (peer_list ∷ s.trace) ≡ false
      → has k (sync_peers v tool c s).1.hub ≡ is_in k (enabled_keys s.peers)
  unfolding sync_with get_wg_peers
  sync_peers-has s k valid answers =
      let (out, printed, shown) = works.shows s.hub in
      ap (λ r. has k r.1.hub) (sync_peers_ok s answers)
      ∙ sync_hub-has s.peers (get_wg_peers v tool c s.hub) (wg_keys v out) s.hub k valid
          (rw (get_wg_peers, printed) refl) (shown k)
