-- ===== src/Tenant/Pattern.antt =====
-- Regular expressions, their languages, and that the matcher of subdomains decides the pattern of
-- internal/tenant/lifecycle.go.
use controlplane.Prelude.{
  ℕ, ◌≤◌, ◌≡◌, refl, ◌↔◌, Bool, true, false, none, [], ◌∷◌, Text, arith, length,
}
use controlplane.Tenant.Subdomain.{
  is_alnum, is_label, ends_label, matches_subdomain, is_reserved, validate_subdomain,
}

pub data Regex : Type 0 where
  class : (ℕ → Bool) → Regex
  seq : Regex → Regex → Regex
  star : Regex → Regex

-- `Matches r s rest`: `r` matches a prefix of `s` that leaves `rest`.
pub data Matches : Regex → Text → Text → Type 0 where
  one : {p : ℕ → Bool} {c : ℕ} {s : Text} → p c ≡ true → Matches (class p) (c ∷ s) s
  both : {r q : Regex} {s t u : Text} → Matches r s t → Matches q t u → Matches (seq r q) s u
  stop : {r : Regex} {s : Text} → Matches (star r) s s
  more : {r : Regex} {s t u : Text} → Matches r s t → Matches (star r) t u → Matches (star r) s u

-- `^[a-z0-9][a-z0-9-]*[a-z0-9]$`
abbrev pub tail_pattern : Regex
tail_pattern = seq (star (class is_label)) (class is_alnum)

abbrev pub subdomain_pattern : Regex
subdomain_pattern = seq (class is_alnum) tail_pattern

is_label_of_alnum : (c : ℕ) → is_alnum c ≡ true → is_label c ≡ true
unfolding is_label
is_label_of_alnum c h = rw h refl

ends-Matches : (s : Text) → ends_label s ≡ true → Matches tail_pattern s []
unfolding ends_label
ends-Matches [] h = cc
ends-Matches (c ∷ []) h = both stop (one h)
ends-Matches (c ∷ d ∷ s) h = step (ends-Matches (d ∷ s) (ground arith))
  where
    step : Matches tail_pattern (d ∷ s) [] → Matches tail_pattern (c ∷ d ∷ s) []
    step (both many last) = both (more (one {p = is_label} {c = c} (ground arith)) many) last

cons-ends : (c : ℕ) (s : Text) → is_label c ≡ true → ends_label s ≡ true → ends_label (c ∷ s) ≡ true
unfolding ends_label
cons-ends c [] e h = cc
cons-ends c (d ∷ s) e h = rw (e, h) refl

star-ends :
    {s t : Text} → Matches (star (class is_label)) s t → ends_label t ≡ true → ends_label s ≡ true
star-ends stop h = h
star-ends (more (one {c = c} {s = s} e) m) h = cons-ends c s e (star-ends m h)

Matches-ends : {s : Text} → Matches tail_pattern s [] → ends_label s ≡ true
unfolding ends_label
Matches-ends (both m (one {c = c} e)) = star-ends m e

pub matches_subdomain_iff :
    (s : Text) → (matches_subdomain s ≡ true) ↔ Matches subdomain_pattern s []
matches_subdomain_iff s = (to s, from)
  where
    to : (s : Text) → matches_subdomain s ≡ true → Matches subdomain_pattern s []
    to [] h = unfold matches_subdomain in cc
    to (c ∷ s) h =
        unfold matches_subdomain in
        both (one {p = is_alnum} {c = c} (ground arith)) (ends-Matches s (ground arith))

    from : {s : Text} → Matches subdomain_pattern s [] → matches_subdomain s ≡ true
    from (both (one {c = c} e) m) = unfold matches_subdomain in rw (e, Matches-ends m) refl

-- `ValidateSubdomain` accepts exactly the words of the pattern
-- `^[a-z0-9][a-z0-9-]*[a-z0-9]$` that have at most 63 bytes and are not reserved.
pub validate_subdomain_iff :
    (s : Text)
    → (validate_subdomain s ≡ none)
      ↔ (Matches subdomain_pattern s [] × (length s ≤ 63) × (is_reserved s ≡ false))
unfolding validate_subdomain
validate_subdomain_iff s = (to, from)
  where
    to :
        validate_subdomain s ≡ none
        → Matches subdomain_pattern s [] × (length s ≤ 63) × (is_reserved s ≡ false)
    to h = ((matches_subdomain_iff s).0 (ground arith), ground arith, ground arith)

    from :
        Matches subdomain_pattern s [] × (length s ≤ 63) × (is_reserved s ≡ false)
        → validate_subdomain s ≡ none
    from (m, short, free) = ground (arith, (matches_subdomain_iff s).1 m)
