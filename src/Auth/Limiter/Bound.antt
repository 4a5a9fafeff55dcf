-- ===== src/Auth/Limiter/Bound.antt =====
-- The login limiter stays within `maxLimiterEntries`, whatever the callers do.
use controlplane.Prelude.{
  is_empty, ℕ, ◌+◌, ◌≤◌, ◌<◌, ◌≡◌, refl, Bool, true, not, ◌||◌, ◌⊎◌, List, [], ◌∷◌, arith, ltb,
  Text, text_eq_refl, length, Bool-cases, Option-cases, inl, inr,
}
use controlplane.Table.{count, exists, length-select, count-le-length, length-update}
use controlplane.Auth.Limiter.{
  Limiter, LimitEntry, is_entry, check, sweep, oldest, make_room, record_failure, reset, delete,
  get, failed_again, is_expired,
}

-- The calls that the handlers and the janitor make.
pub data Step : Limiter → Limiter → Type 0 where
  checked : (now : ℕ) (address : Text) (l : Limiter) → Step l (check now address l).1
  recorded : (now : ℕ) (address : Text) (l : Limiter) → Step l (record_failure now address l)
  swept : (now : ℕ) (l : Limiter) → Step l (sweep now l).1
  cleared : (address : Text) (l : Limiter) → Step l (reset address l)

-- The limiter after any sequence of calls, from the empty map of a new handler.
pub data Reachable : Limiter → Type 0 where
  start : Reachable []
  next : {l m : Limiter} → Reachable l → Step l m → Reachable m

abbrev Fits : Limiter → Type 0
Fits l = length l ≤ 10000

module _ {ℓ} {R : Type ℓ} (p : R → Bool) where
  count-not : (rs : List R) → count p rs + count (λ r. not (p r)) rs ≡ length rs
  unfolding count
  count-not [] = refl
  count-not (r ∷ rs) = ground (arith, count-not rs)

  count-exists : (rs : List R) → exists p rs ≡ true → 0 < count p rs
  unfolding exists count
  count-exists (r ∷ rs) h = ground (arith, count-exists rs)
  count-exists [] h = cc

  exists-tail : (r : R) (rs : List R) → exists p rs ≡ true → exists p (r ∷ rs) ≡ true
  unfolding exists
  exists-tail r rs h = ground (arith, h)

  exists-head : (r : R) (rs : List R) → p r ≡ true → exists p (r ∷ rs) ≡ true
  unfolding exists
  exists-head r rs h = rw h refl

delete-length : (address : Text) (l : Limiter) → length (delete address l) ≤ length l
unfolding delete
delete-length address l = omega (
  arith,
  length-select (λ e. not (is_entry address e)) l,
  count-le-length (λ e. not (is_entry address e)) l,
)

delete-shrinks :
    (address : Text) (l : Limiter)
    → exists (is_entry address) l ≡ true
    → length (delete address l) < length l
unfolding delete
delete-shrinks address l h = omega (
  arith,
  length-select (λ e. not (is_entry address e)) l,
  count-not (is_entry address) l,
  count-exists (is_entry address) l h,
)

is_entry_self : (e : LimitEntry) (address : Text) → address ≡ e.email → is_entry address e ≡ true
is_entry_self e address same = rw same (text_eq_refl e.email)

-- The scan returns where it starts, or the address of an entry.
oldest-cases :
    (best : Text × ℕ) (l : Limiter)
    → (exists (is_entry (oldest best l).0) l ≡ true) ⊎ ((oldest best l).0 ≡ best.0)
unfolding oldest
oldest-cases best [] = inr refl
oldest-cases best (e ∷ l) = elim (Bool-cases (is_empty best.0 || ltb e.last_fail best.1)) [
  | inl c ↦
      rw (oldest, c)
        (elim (oldest-cases (e.email, e.last_fail) l) [
          | inl found ↦ inl (exists-tail _ e l found)
          | inr same ↦ inl (exists-head _ e l (is_entry_self e _ same))
        ])
  | inr c ↦
      rw (oldest, c)
        (elim (oldest-cases best l) [
          | inl found ↦ inl (exists-tail _ e l found)
          | inr same ↦ inr same
        ])
]

-- From the empty address, the scan of a map with an entry ends at an entry.
oldest-exists :
    (t : ℕ) (l : Limiter) → 0 < length l → exists (is_entry (oldest ([], t) l).0) l ≡ true
unfolding oldest
oldest-exists t [] h = ground (arith, h)
oldest-exists t (e ∷ l) h = elim (oldest-cases (e.email, e.last_fail) l) [
  | inl found ↦ exists-tail _ e l found
  | inr same ↦ exists-head _ e l (is_entry_self e _ same)
]

sweep-length : (now : ℕ) (l : Limiter) → length (sweep now l).1 ≤ length l
unfolding sweep
sweep-length now l = omega (
  arith,
  length-select (λ e. not (is_expired now e)) l,
  count-le-length (λ e. not (is_expired now e)) l,
)

make_room-Fits : (now : ℕ) (l : Limiter) → Fits l → length (make_room now l) < 10000
unfolding make_room
make_room-Fits now l h = elim (Bool-cases (ltb (length l) 10000)) [
  | inl c ↦ rw c (ground arith)
  | inr c ↦ rw c (elim (Bool-cases (ltb (length (sweep now l).1) 10000)) [
    | inl d ↦ rw d (ground arith)
    | inr d ↦ rw d (
        omega (
          arith,
          sweep-length now l,
          delete-shrinks (oldest ([], 0) (sweep now l).1).0 (sweep now l).1
              (oldest-exists 0 (sweep now l).1 (ground arith)),
        ))
  ])
]

record_failure-Fits :
    (now : ℕ) (address : Text) (l : Limiter) → Fits l → Fits (record_failure now address l)
unfolding record_failure
record_failure-Fits now address l h = elim (Bool-cases (exists (is_entry address) l)) [
  | inl c ↦ rw (c, length-update (is_entry address) (failed_again now) l) h
  | inr c ↦ rw c (omega (arith, make_room-Fits now l h))
]

check-length : (now : ℕ) (address : Text) (l : Limiter) → length (check now address l).1 ≤ length l
unfolding check
check-length now address l = elim (Option-cases (get address l)) [
  | inl absent ↦ rw (check, absent) (omega arith)
  | inr (e, there) ↦ rw (check, there) (ground (arith, delete-length address l))
]

step-Fits : {l m : Limiter} → Step l m → Fits l → Fits m
unfolding reset
step-Fits (checked now address l) h = omega (arith, check-length now address l)
step-Fits (recorded now address l) h = record_failure-Fits now address l h
step-Fits (swept now l) h = omega (arith, sweep-length now l)
step-Fits (cleared address l) h = omega (arith, delete-length address l)

-- After any sequence of checks, recorded failures, sweeps and resets that starts with the empty map,
-- the login limiter holds at most 10000 entries.
pub reachable-Fits : (l : Limiter) → Reachable l → length l ≤ 10000
reachable-Fits _ start = omega arith
reachable-Fits _ (next r s) = step-Fits s (reachable-Fits _ r)
