-- ===== src/Proxmox/Wait.antt =====
-- `Task.Wait` returns.
use controlplane.Prelude.{
  ℕ, zero, suc, ◌+◌, ◌*◌, ◌/◌, ◌≤◌, ◌<◌, ◌≡◌, refl, ap, true, false, none, some, List, Text, arith,
  Option, Bool-cases, Option-cases, inl, inr,
}
use native.Mathlib.Nat.{
  div-add-mod, mod-lt, add-mul, le-div_iff_mul-le, mul-le-mul_right, mul_comm, one-mul,
}
use controlplane.Proxmox.Task.{
  Polls, TaskStatus, Outcome, WaitOption, configure, default_config, poll_failed, cancelled,
  task_result, is_stopped, wait, wait_from, later_of, next_tick, takes_tick, with_timeout_of,
}

-- The outcome of the loop from the time `t` and the tick `due` on, with any fuel above `d`.
Ends : Polls → Text → ℕ → ℕ → ℕ → ℕ → ℕ → Type 0
unfolding wait_from
Ends p upid i deadline d t due =
    (r : Outcome) × ((fuel : ℕ) → d < fuel → wait_from p upid i deadline fuel t due ≡ some r)

later_of-right : (a b : ℕ) → b ≤ later_of a b
later_of-right a b = ground arith

same_multiple : (k m i : ℕ) → 0 + k ≡ m → k * i ≡ m * i
same_multiple k m i e = ap (λ j. j * i) same
  where
    same : k ≡ m
    same = omega (arith, e)

tick_behind : (k t i : ℕ) → 0 < i → k * i ≤ t → (k + 1) * i ≤ next_tick i t
tick_behind k t i positive behind =
    mul-le-mul_right i (omega (arith, (le-div_iff_mul-le positive).1 behind))

module _ (p : Polls) (upid : Text) (i deadline : ℕ) where
  wait_from-failed : (d t due : ℕ) → p.status_at deadline t ≡ none → Ends p upid i deadline d t due
  unfolding Ends wait_from
  wait_from-failed d t due e = (poll_failed, go)
    where
      go : (fuel : ℕ) → d < fuel → wait_from p upid i deadline fuel t due ≡ some poll_failed
      go zero h = absurd (omega (arith, h))
      go (suc fuel) h = rw (wait_from, e) refl

  -- An iteration ends the loop, or goes on from its tick.
  abbrev ticked : ℕ → ℕ → ℕ
  ticked t due = later_of (t + p.latency t) due

  wait_from-step :
      (d t due : ℕ)
      → Ends p upid i deadline d (ticked t due) (next_tick i (ticked t due))
      → Ends p upid i deadline (suc d) t due
  unfolding Ends wait_from
  wait_from-step d t due (r, later) = elim (Option-cases (p.status_at deadline t)) [
    | inl e ↦ wait_from-failed (suc d) t due e
    | inr (st, e) ↦ elim (Bool-cases (is_stopped st)) [
      | inl stopped ↦ (task_result upid st, ended st e stopped)
      | inr running ↦ elim (Bool-cases (takes_tick p deadline (t + p.latency t) due)) [
        | inl on ↦ (r, goes_on st e running on)
        | inr off ↦ (cancelled, given_up st e running off)
      ]
    ]
  ]
    where
      ended :
          (st : TaskStatus)
          → p.status_at deadline t ≡ some st
          → is_stopped st ≡ true
          → (fuel : ℕ) → suc d < fuel
          → wait_from p upid i deadline fuel t due ≡ some (task_result upid st)
      ended st e stopped zero h = absurd (omega (arith, h))
      ended st e stopped (suc fuel) h = rw (wait_from, e, stopped) refl

      given_up :
          (st : TaskStatus)
          → p.status_at deadline t ≡ some st
          → is_stopped st ≡ false
          → takes_tick p deadline (t + p.latency t) due ≡ false
          → (fuel : ℕ) → suc d < fuel
          → wait_from p upid i deadline fuel t due ≡ some cancelled
      given_up st e running off zero h = absurd (omega (arith, h))
      given_up st e running off (suc fuel) h = rw (wait_from, e, running, off) refl

      goes_on :
          (st : TaskStatus)
          → p.status_at deadline t ≡ some st
          → is_stopped st ≡ false
          → takes_tick p deadline (t + p.latency t) due ≡ true
          → (fuel : ℕ) → suc d < fuel
          → wait_from p upid i deadline fuel t due ≡ some r
      goes_on st e running on zero h = absurd (omega (arith, h))
      goes_on st e running on (suc fuel) h =
          rw (wait_from, e, running, on) (later fuel (omega (arith, h)))

  -- `k` ticks are behind, so `k` intervals are, and the next tick is not before the next interval.
  wait_from-Ends :
      ((t : ℕ) → deadline ≤ t → p.status_at deadline t ≡ none)
      → 0 < i
      → (d k m t due : ℕ) → d + k ≡ m
      → deadline ≤ m * i
      → k * i ≤ t
      → (k + 1) * i ≤ due
      → Ends p upid i deadline d t due
  wait_from-Ends fails positive zero k m t due at late now next =
      wait_from-failed zero t due (fails t (omega (arith, late, now, same_multiple k m i at)))
  wait_from-Ends fails positive (suc d) k m t due at late now next = wait_from-step d t due (
      wait_from-Ends fails positive d (k + 1) m (ticked t due) (next_tick i (ticked t due))
        (omega (arith, at)) late reached (tick_behind (k + 1) (ticked t due) i positive reached))
    where
      reached : (k + 1) * i ≤ ticked t due
      reached = omega (arith, next, later_of-right (t + p.latency t) due)

-- The first multiple after the timeout.
timeout-le : (t i : ℕ) → 0 < i → t ≤ (t / i + 1) * i
timeout-le t i h =
    omega (arith, div-add-mod t i, mod-lt t h, add-mul (t / i) 1 i, mul_comm i (t / i), one-mul i)

deadline-le : (caller : Option ℕ) (timeout : ℕ) → with_timeout_of caller timeout ≤ timeout
deadline-le none timeout = omega arith
deadline-le (some done) timeout = ground arith

-- `Wait` returns, with one outcome whatever the fuel above timeout / interval + 1, the number of the polls,
-- whatever the requests answer, however long they take and whenever the caller's context is done. The
-- conditions are that the interval is not zero, which `time.NewTicker` demands, and that a request
-- that is sent under a context that is done fails.
pub wait_total :
    (p : Polls) (upid : Text) (caller : Option ℕ) (options : List WaitOption)
    → 0 < (configure options default_config).poll_interval
    → ((deadline t : ℕ) → deadline ≤ t → p.status_at deadline t ≡ none)
    → (r : Outcome) × ((fuel : ℕ)
        → (configure options default_config).timeout
              / (configure options default_config).poll_interval
            + 1
          < fuel
        → wait p upid caller options fuel ≡ some r)
unfolding wait Ends
wait_total p upid caller options positive fails =
    wait_from-Ends p upid interval deadline (fails deadline) positive bound 0 bound 0 interval
      (omega arith)
      (omega (arith, deadline-le caller timeout, timeout-le timeout interval positive))
      (omega arith) (omega arith)
  where
    interval : ℕ
    interval = (configure options default_config).poll_interval

    timeout : ℕ
    timeout = (configure options default_config).timeout

    deadline : ℕ
    deadline = with_timeout_of caller timeout

    bound : ℕ
    bound = timeout / interval + 1
