-- ===== src/Wireguard/Range.antt =====
-- What `ValidateAllowedIPs` lets through.
use controlplane.Prelude.{
  ℕ, zero, suc, ◌+◌, ◌-◌, ◌*◌, ◌/◌, ◌^◌, ◌≤◌, ◌≡◌, sym, ◌∙◌, ap, true, false, Option, none, some,
  List, [], ◌∷◌, Text, is_empty, arith, Bool-cases, inl, inr, All,
}
use mathlib.Core.Bool.{false≢true}
use native.Mathlib.Nat.{div-div-eq-div-mul, pow-suc, pow-zero, mul_assoc}
use controlplane.World.{Prefix}
use controlplane.Wireguard.Model.{Services}
use controlplane.Wireguard.Validate.{is_allowed_prefix, are_allowed, validate_allowed_ips, split}

-- The address `a` is one of the prefix `p`: they agree on its bits.
abbrev pub Holds : Prefix → ℕ → Type 0
Holds p a = a / 2 ^ (32 - p.bits) ≡ p.addr / 2 ^ (32 - p.bits)

-- A parsed part that is let through: an IPv4 prefix all of whose addresses are in 10.10.0.0/16.
abbrev pub Inside : Option Prefix → Type 0
Inside none = ⊥
Inside (some p) = (p.is4 ≡ true) × (p.bits ≤ 32 → (a : ℕ) → Holds p a → a / 2 ^ 16 ≡ 2570)

abbrev pub Fine : Services → Text → Type 0
Fine v part = is_empty (v.trim_space part) ≡ false → Inside (v.env.parse_prefix (v.trim_space part))

pow_at : (i j : ℕ) → i ≡ j → 2 ^ i ≡ 2 ^ j
pow_at i j e = ap (λ n. 2 ^ n) e

pow_sum : (m k : ℕ) → 2 ^ (m + k) ≡ 2 ^ m * 2 ^ k
pow_sum m zero = omega (arith, pow_at (m + 0) m (omega arith), ap (λ x. 2 ^ m * x) (pow-zero 2))
pow_sum m (suc k) =
    pow_at (m + suc k) (suc (m + k)) (omega arith)
    ∙ pow-suc 2 (m + k)
    ∙ ap (λ x. x * 2) (pow_sum m k)
    ∙ mul_assoc (2 ^ m) (2 ^ k) 2
    ∙ ap (λ x. 2 ^ m * x) (sym (pow-suc 2 k))

-- Sixteen bits are at most the bits of the prefix, so they agree as well.
coarser :
    (a b bits : ℕ)
    → 16 ≤ bits
    → bits ≤ 32
    → a / 2 ^ (32 - bits) ≡ b / 2 ^ (32 - bits)
    → a / 2 ^ 16 ≡ b / 2 ^ 16
coarser a b bits low high same =
    split_div a ∙ ap (λ q. q / 2 ^ (bits - 16)) same ∙ sym (split_div b)
  where
    whole : 2 ^ (32 - bits) * 2 ^ (bits - 16) ≡ 2 ^ 16
    whole =
        sym (pow_sum (32 - bits) (bits - 16))
        ∙ pow_at (32 - bits + (bits - 16)) 16 (omega (arith, low, high))

    split_div : (n : ℕ) → n / 2 ^ 16 ≡ n / 2 ^ (32 - bits) / 2 ^ (bits - 16)
    split_div n =
        ap (λ d. n / d) (sym whole) ∙ sym (div-div-eq-div-mul n (2 ^ (32 - bits)) (2 ^ (bits - 16)))

is_allowed_prefix-Inside : (p : Option Prefix) → is_allowed_prefix p ≡ true → Inside p
is_allowed_prefix-Inside none h = absurd (false≢true h)
is_allowed_prefix-Inside (some p) h =
    (four p h, λ high a holds. coarser a p.addr p.bits (long p h) high holds ∙ within p h)
  where
    four : (q : Prefix) → is_allowed_prefix (some q) ≡ true → q.is4 ≡ true
    four q e = ground (arith, e)

    within : (q : Prefix) → is_allowed_prefix (some q) ≡ true → q.addr / 2 ^ 16 ≡ 2570
    within q e = ground (arith, e)

    long : (q : Prefix) → is_allowed_prefix (some q) ≡ true → 16 ≤ q.bits
    long q e = ground (arith, e)

are_allowed-Fine :
    (v : Services) (parts : List Text) → are_allowed v parts ≡ true → All (Fine v) parts
unfolding are_allowed
are_allowed-Fine v [] h = tt
are_allowed-Fine v (part ∷ parts) h = elim (Bool-cases (is_empty (v.trim_space part))) [
  | inl e ↦ (λ full. absurd (false≢true (sym full ∙ e)), are_allowed-Fine v parts (rw e at h))
  | inr e ↦ elim (Bool-cases (is_allowed_prefix (v.env.parse_prefix (v.trim_space part)))) [
    | inl fits ↦ (
      λ full. is_allowed_prefix-Inside (v.env.parse_prefix (v.trim_space part)) fits,
      are_allowed-Fine v parts (rw (e, fits) at h),
    )
    | inr bad ↦ absurd (false≢true (rw (e, bad) at h))
  ]
]

-- Of a text that is accepted, each part between commas is blank or an IPv4 prefix all of whose
-- addresses lie in 10.10.0.0/16, if prefixes have at most 32 bits.
pub validate_allowed_ips-Fine :
    (v : Services) (s : Text) → validate_allowed_ips v s ≡ true → All (Fine v) (split 44 s)
unfolding validate_allowed_ips
validate_allowed_ips-Fine v s h = are_allowed-Fine v (split 44 s) h
