-- ===== src/Tests/Wireguard.antt =====
-- Examples for internal/wireguard.
use controlplane.Prelude.{
  ◌≡◌, refl, sym, ap, ◌∙◌, subst, Bool, true, false, not, ◌&&◌, ◌||◌, none, some, List, [], ◌∷◌,
  Text, codes, text_eq, text_eq_iff, All, Bool-cases, inl, inr, if◌then◌else◌,
}
use mathlib.Core.Bool.{false≢true}
use controlplane.Table.{exists}
use controlplane.Tests.Setup.{calm}
use controlplane.Crypto.{Gcm, encrypt, decrypt}
use controlplane.Crypto.RoundTrip.{Documented as Documented_gcm, decrypt-encrypt}
use controlplane.Wireguard.Model.{Peer, Services, Tool, State, Config}
use controlplane.Wireguard.Validate.{split_at, are_allowed, validate_allowed_ips, split}
use controlplane.Wireguard.Service.{
  decrypt_psk, key_lines, new_service, removal_args, wg_keys, is_in, enabled_keys, sync_peers,
}
use controlplane.Wireguard.Handler.{disable_peer}
use controlplane.Wireguard.Range.{Fine, validate_allowed_ips-Fine}
use controlplane.Wireguard.Sync.{Documented, CanApply, sync_peers-has}
use controlplane.Wireguard.Disable.{Off, disable_peer-Off}

-- The one text that is a key.
abbrev the_key : Text
the_key = codes "k"

abbrev thirty_two : Text
thirty_two = codes "01234567890123456789012345678901"

-- A cipher that hides nothing.
abbrev plain_gcm : Gcm
plain_gcm = record {
  decode_hex = λ t. some t;
  encode_hex = λ t. t;
  nonce_size = 1;
  seal = λ key nonce t. t;
  unseal = λ key nonce t. some t;
}

plain_gcm-Documented : Documented_gcm plain_gcm
plain_gcm-Documented = record { hex = λ bytes. refl; opens = λ key nonce plaintext. refl }

decrypt-encrypt_example :
    (sealed : Text) × (encrypt plain_gcm (some (codes "n")) (codes "psk") thirty_two ≡ some sealed)
    × (decrypt plain_gcm sealed thirty_two ≡ some (codes "psk"))
decrypt-encrypt_example =
    decrypt-encrypt plain_gcm plain_gcm-Documented thirty_two thirty_two (codes "n") (codes "psk")
      refl refl refl

-- Every prefix is 10.10.3.0/24.
abbrev services : Services
services = record {
  fails = λ _. false;
  fresh_id = λ _. 1;
  fresh_private_key = λ _. codes "private";
  public_key_of = λ _. the_key;
  fresh_preshared_key = λ _. codes "psk";
  gcm = plain_gcm;
  fresh_nonce = λ _. some (codes "n");
  base64 = λ t. if text_eq t the_key then some thirty_two else none;
  trim_space = λ t. t;
  split_host_port = λ t. none;
  atoi = λ t. none;
  encode_base64 = λ t. t;
  network = λ t. some (codes "10.10.0.1", t, 24);
  show_number = λ n. n ∷ [];
  qr_code = λ t. some t;
  env = record calm {
    parse_prefix = λ _. some (record { is4 = true; addr = 168428288; bits = 24 });
  };
}

-- An interface that holds the key or not.
run_args : List Text → Bool → Bool
run_args (a ∷ b ∷ d ∷ key ∷ word ∷ rest) h =
    if text_eq key the_key then not (text_eq word (codes "remove")) else h
run_args args h = h

-- Only the one key is accepted.
accepts_args : List Text → Text → Bool
accepts_args (a ∷ b ∷ d ∷ key ∷ rest) input = text_eq key the_key
accepts_args args input = false

abbrev a_tool : Tool Bool
a_tool = record {
  run = λ args input h. (true, run_args args h);
  output = λ args h. some (if h then the_key else []);
}

abbrev has_key : Text → Bool → Bool
has_key k h = text_eq the_key k && h

abbrev config : Config
config = new_service thirty_two [] [] []

and_true : (b h : Bool) → (b && true) ≡ (b || (b && h))
and_true true h = refl
and_true false h = refl

and_false : (b h : Bool) → (b && false) ≡ (not b && (b && h))
and_false true h = refl
and_false false h = refl

and_not : (b e h : Bool) → (b ≡ true → e ≡ false) → (b && h) ≡ (not e && (b && h))
and_not true false h apart = refl
and_not false false h apart = refl
and_not true true h apart = absurd (false≢true (sym (apart refl)))
and_not false true h apart = refl

put_key :
    (key : Text) (rest : List Text) (h : Bool) (k : Text)
    → key ≡ the_key
    → has_key k
        (run_args (codes "set" ∷ codes "wg0" ∷ codes "peer" ∷ key ∷ codes "allowed-ips" ∷ rest) h)
      ≡ (text_eq key k || has_key k h)
unfolding run_args text_eq
put_key key rest h k e =
    subst
      (λ t.
        has_key k
          (run_args (codes "set" ∷ codes "wg0" ∷ codes "peer" ∷ t ∷ codes "allowed-ips" ∷ rest) h)
        ≡ (text_eq t k || has_key k h))
      (sym e) (and_true (text_eq the_key k) h)

take_key :
    (key : Text) (h : Bool) (k : Text)
    → has_key k (run_args (removal_args config key) h) ≡ (not (text_eq key k) && has_key k h)
unfolding run_args text_eq
take_key key h k = elim (Bool-cases (text_eq key the_key)) [
  | inl e ↦
      subst
        (λ t. has_key k (run_args (removal_args config t) h) ≡ (not (text_eq t k) && has_key k h))
        (sym ((text_eq_iff key the_key).0 e)) (and_false (text_eq the_key k) h)
  | inr e ↦
      rw (run_args, e)
        (and_not (text_eq the_key k) (text_eq key k) h
          λ b. ap (text_eq key) (sym ((text_eq_iff the_key k).0 b)) ∙ e)
]

refl_or : (b : Bool) → (b && true) ≡ (b || false)
refl_or true = refl
refl_or false = refl

blank_key : (b : Bool) → (b && false) ≡ false
blank_key true = refl
blank_key false = refl

printed_keys :
    (h : Bool) (k : Text) → has_key k h ≡ is_in k (wg_keys services (if h then the_key else []))
unfolding is_in exists key_lines split_at text_eq
printed_keys true k = refl_or (text_eq the_key k)
printed_keys false k = blank_key (text_eq the_key k)

a_tool-Documented : Documented services a_tool config has_key accepts_args
unfolding new_service accepts_args
a_tool-Documented = record {
  puts = λ key rest input h k accepted. put_key key rest h k ((text_eq_iff key the_key).0 accepted);
  takes = λ key h k. take_key key h k;
  shows = λ h. ((if h then the_key else []), refl, printed_keys h);
}

abbrev a_peer : Peer
a_peer = record {
  id = 1;
  name = codes "p";
  public_key = the_key;
  preshared_key_encrypted = some (codes "npsk");
  wg_ip = codes "10.10.0.2";
  allowed_ips = codes "10.10.0.2/32";
  endpoint = none;
  kind = codes "user";
  tenant_id = none;
  enabled = true;
}

abbrev one_peer : Bool → State Bool
one_peer h = record { peers = a_peer ∷ []; hub = h; audits = []; trace = [] }

validate_allowed_ips-Fine_example :
    All (Fine services) (split 44 (codes "10.10.3.0/24, 10.10.3.0/24"))
unfolding validate_allowed_ips are_allowed split_at
validate_allowed_ips-Fine_example =
    validate_allowed_ips-Fine services (codes "10.10.3.0/24, 10.10.3.0/24") refl

a_peer-CanApply : CanApply services config accepts_args a_peer
unfolding new_service accepts_args decrypt_psk decrypt text_eq
a_peer-CanApply on = (λ blank. absurd (false≢true blank), λ sealed. (codes "psk", refl, refl))

sync_peers-has_example :
    has_key the_key (sync_peers services a_tool config (one_peer false)).1.hub
    ≡ is_in the_key (enabled_keys (a_peer ∷ []))
sync_peers-has_example =
    sync_peers-has services a_tool config has_key accepts_args a_tool-Documented (one_peer false)
      the_key (a_peer-CanApply, tt) refl

disable_peer-Off_example :
    Off has_key a_peer (disable_peer services a_tool config (some 1) (one_peer true)).1
unfolding disable_peer
disable_peer-Off_example =
    disable_peer-Off services a_tool config has_key take_key 1 a_peer (one_peer true) refl refl
