-- ===== src/Auth/Limiter/Lockout.antt =====
-- The lockout after `maxLoginAttempts` failures.
use controlplane.Prelude.{
  ℕ, suc, ◌-◌, ◌≤◌, ◌≡◌, refl, ap, true, false, none, some, List, [], ◌∷◌, arith, Text,
  text_eq_refl, length, Bool-cases, inl, inr,
}
use mathlib.Core.Bool.{false≢true}
use controlplane.Table.{update, select, exists}
use controlplane.Auth.Limiter.{
  Limiter, LimitEntry, is_entry, check, record_failure, reset, get, failed_again, delete,
}

-- The failures on record for an address.
pub failures_of : Text → Limiter → ℕ
failures_of address l = elim (get address l) [ none ↦ 0 | some e ↦ e.failures ]

-- Failed logins of one address at the given times, the last first.
pub fail_all : List ℕ → Text → Limiter → Limiter
unfolding record_failure
fail_all [] address l = l
fail_all (now ∷ earlier) address l = record_failure now address (fail_all earlier address l)

get-update :
    (now : ℕ) (address : Text) (l : Limiter)
    → exists (is_entry address) l ≡ true
    → (e : LimitEntry) × (get address l ≡ some e)
      × (get address (update (is_entry address) (failed_again now) l) ≡ some (failed_again now e))
unfolding get update exists select
get-update now address [] h = absurd (false≢true h)
get-update now address (e ∷ l) h = elim (Bool-cases (is_entry address e)) [
  | inl c ↦ rw c (e, refl, rw c refl)
  | inr c ↦ rw c (rw c (get-update now address l (rw c at h)))
]

get-absent :
    (address : Text) (l : Limiter) → exists (is_entry address) l ≡ false → get address l ≡ none
unfolding get exists select
get-absent address [] h = refl
get-absent address (e ∷ l) h = ground (arith, get-absent address l)

-- What a recorded failure leaves for the address.
get-record_failure :
    (now : ℕ) (address : Text) (l : Limiter)
    → (e : LimitEntry) × (get address (record_failure now address l) ≡ some e)
      × (e.last_fail ≡ now)
      × (e.failures ≡ suc (failures_of address l))
unfolding record_failure failures_of get select
get-record_failure now address l = elim (Bool-cases (exists (is_entry address) l)) [
  | inl c ↦
      let (e, there, after) = get-update now address l c in
      rw c (failed_again now e, after, refl, ap suc (rw (failures_of, there) refl))
  | inr c ↦
      rw (c, text_eq_refl address)
        (
          record { email = address; failures = 1; last_fail = now },
          refl,
          refl,
          rw (failures_of, get-absent address l c) refl,
        )
]

failures-record_failure :
    (now : ℕ) (address : Text) (l : Limiter)
    → failures_of address (record_failure now address l) ≡ suc (failures_of address l)
unfolding failures_of
failures-record_failure now address l =
    let (e, there, when, more) = get-record_failure now address l in rw (failures_of, there) more

failures-fail_all :
    (ts : List ℕ) (address : Text) (l : Limiter)
    → length ts ≤ failures_of address (fail_all ts address l)
unfolding fail_all
failures-fail_all [] address l = omega arith
failures-fail_all (t ∷ ts) address l = omega (
  arith,
  failures-record_failure t address (fail_all ts address l),
  failures-fail_all ts address l,
)

-- When the last five or more recorded calls are failures of one address, and at most 15 minutes have
-- passed since the last of them, the check refuses the address and changes nothing, whatever the
-- limiter held before.
pub check-fail_all :
    (now last : ℕ) (earlier : List ℕ) (address : Text) (l : Limiter)
    → 4 ≤ length earlier
    → now - last ≤ 900
    → check now address (fail_all (last ∷ earlier) address l)
      ≡ (false, fail_all (last ∷ earlier) address l)
unfolding fail_all check
check-fail_all now last earlier address l enough soon =
    let (e, there, when, more) = get-record_failure last address (fail_all earlier address l) in
    rw (check, there) (ground (arith, failures-fail_all earlier address l, e.failures, e.last_fail))

get-delete : (address : Text) (l : Limiter) → get address (delete address l) ≡ none
unfolding get delete select
get-delete address [] = refl
get-delete address (e ∷ l) = ground (arith, get-delete address l)

-- After a reset, and the same after a window that has passed, an address is admitted.
pub check-reset :
    (now : ℕ) (address : Text) (l : Limiter)
    → check now address (reset address l) ≡ (true, reset address l)
unfolding check reset
check-reset now address l = rw (check, get-delete address l) refl
