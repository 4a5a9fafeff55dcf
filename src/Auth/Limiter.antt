-- ===== src/Auth/Limiter.antt =====
-- internal/auth/handler.go: `loginLimiter`. The Go map is the list of its entries, in the order in
-- which a `range` over it happens to go; the theorems hold for every order. Times are in seconds.
pub mod Bound
pub mod Lockout
use controlplane.Prelude.{
  is_empty, ℕ, suc, ◌+◌, ◌-◌, ◌*◌, Bool, true, false, not, ◌||◌, Option, none, some, List, [], ◌∷◌,
  ltb, if◌then◌else◌, Text, text_eq, length, head?,
}
use controlplane.Table.{count, update, select, exists}

abbrev pub max_login_attempts : ℕ
max_login_attempts = 5

abbrev pub login_limit_window : ℕ
login_limit_window = 15 * 60

abbrev pub max_limiter_entries : ℕ
max_limiter_entries = 10000

pub record LimitEntry : Type 0 where
  pub email : Text
  pub failures : ℕ
  pub last_fail : ℕ

abbrev pub Limiter : Type 0
Limiter = List LimitEntry

abbrev pub is_entry : Text → LimitEntry → Bool
is_entry address e = text_eq e.email address

-- `l.entries[email]` and `delete(l.entries, email)`
unfoldable pub get : Text → Limiter → Option LimitEntry
unfolding select
get address l = head? (select (is_entry address) l)

unfoldable pub delete : Text → Limiter → Limiter
unfolding select
delete address l = select (λ e. not (is_entry address e)) l

-- `now.Sub(e.lastFail) > loginLimitWindow`
abbrev pub is_expired : ℕ → LimitEntry → Bool
is_expired now e = ltb login_limit_window (now - e.last_fail)

unfoldable pub check : ℕ → Text → Limiter → Bool × Limiter
unfolding get delete
check now address l = elim (get address l) [
  | none ↦ (true, l)
  | some e ↦
      if is_expired now e then (true, delete address l) else (ltb e.failures max_login_attempts, l)
]

-- The entries that stay, and how many went.
unfoldable pub sweep : ℕ → Limiter → ℕ × Limiter
unfolding select count
sweep now l = (count (is_expired now) l, select (λ e. not (is_expired now e)) l)

-- The scan for the entry that failed least recently: `oldestEmail` and `oldestAt`.
unfoldable pub oldest : Text × ℕ → Limiter → Text × ℕ
oldest best [] = best
oldest best (e ∷ l) =
    oldest (if is_empty best.0 || ltb e.last_fail best.1 then (e.email, e.last_fail) else best) l

-- `oldestAt` starts as the zero time; it is not read before an entry has replaced it.
unfoldable pub make_room : ℕ → Limiter → Limiter
unfolding sweep oldest delete
make_room now l =
    let swept = (sweep now l).1 in
    if ltb (length l) max_limiter_entries
    then l
    else if ltb (length swept) max_limiter_entries
    then swept
    else delete (oldest ([], 0) swept).0 swept

-- `e.failures++; e.lastFail = time.Now()`
abbrev pub failed_again : ℕ → LimitEntry → LimitEntry
failed_again now e = record e { failures = suc e.failures; last_fail = now }

unfoldable pub record_failure : ℕ → Text → Limiter → Limiter
unfolding make_room exists update
record_failure now address l =
    if exists (is_entry address) l
    then update (is_entry address) (failed_again now) l
    else record { email = address; failures = 1; last_fail = now } ∷ make_room now l

unfoldable pub reset : Text → Limiter → Limiter
unfolding delete
reset = delete
