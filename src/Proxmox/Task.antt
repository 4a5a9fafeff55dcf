-- ===== src/Proxmox/Task.antt =====
-- internal/proxmox/task.go: `Task.Wait`; errors.go: `IsContainerNotFound`. Times are in nanoseconds.
use controlplane.Prelude.{
  ℕ, zero, suc, ◌+◌, ◌/◌, ◌*◌, ltb, ◌==◌, not, ◌&&◌, Bool, true, false, ◌||◌, Option, none, some,
  List, [], ◌∷◌, Text, codes, text_eq, if◌then◌else◌, strip_prefix,
}

pub record TaskStatus : Type 0 where
  pub status : Text
  pub exit_status : Text
  pub kind : Text

pub record WaitConfig : Type 0 where
  pub poll_interval : ℕ
  pub timeout : ℕ

abbrev pub second : ℕ
second = 1000000000

abbrev pub default_config : WaitConfig
default_config = record { poll_interval = 2 * second; timeout = 5 * 60 * second }

pub data WaitOption : Type 0 where
  with_poll_interval with_timeout : ℕ → WaitOption

abbrev pub apply : WaitOption → WaitConfig → WaitConfig
apply (with_poll_interval d) cfg = record cfg { poll_interval = d }
apply (with_timeout d) cfg = record cfg { timeout = d }

-- The options in order.
unfoldable pub configure : List WaitOption → WaitConfig → WaitConfig
configure [] cfg = cfg
configure (o ∷ os) cfg = configure os (apply o cfg)

pub record TaskError : Type 0 where
  pub upid : Text
  pub exit_status : Text
  pub kind : Text

pub data Outcome : Type 0 where
  -- Nil; a poll that failed; a task that failed; a context that is done.
  completed poll_failed cancelled : Outcome
  task_failed : TaskError → Outcome

-- The API and the clock. Times count from the call of `Wait`. `status_at deadline t` is what a request that
-- is sent at `t`, under a context that is done from `deadline` on, answers; `latency t` is how long it takes;
-- `prefers_done` is which case `select` takes if both become ready at the same time.
pub record Polls : Type 0 where
  pub status_at : ℕ → ℕ → Option TaskStatus
  pub latency : ℕ → ℕ
  pub prefers_done : ℕ → Bool

abbrev pub later_of : ℕ → ℕ → ℕ
later_of a b = if ltb a b then b else a

-- `context.WithTimeout`: done after the timeout, or when the caller's context is done if that is sooner.
abbrev pub with_timeout_of : Option ℕ → ℕ → ℕ
with_timeout_of none timeout = timeout
with_timeout_of (some done) timeout = if ltb done timeout then done else timeout

-- `NewTicker`: a tick at every multiple of the interval. The channel holds one, so ticks that find it full are
-- dropped: after a receipt at `t` the next tick is the first multiple after `t`.
abbrev pub next_tick : ℕ → ℕ → ℕ
next_tick interval t = (t / interval + 1) * interval

abbrev pub task_result : Text → TaskStatus → Outcome
task_result upid st =
    if text_eq st.exit_status (codes "OK")
    then completed
    else task_failed (record { upid = upid; exit_status = st.exit_status; kind = st.kind })

abbrev pub is_stopped : TaskStatus → Bool
is_stopped st = text_eq st.status (codes "stopped")

-- `select` at the time `t`, with a tick that comes at `due`: whether the tick is taken.
abbrev pub takes_tick : Polls → ℕ → ℕ → ℕ → Bool
takes_tick p deadline t due =
    ltb (later_of t due) (later_of t deadline)
    || (later_of t due == later_of t deadline && not (p.prefers_done t))

-- The loop: a request at the time `t`, the next tick at `due`; none if the fuel is used up.
unfoldable pub wait_from : Polls → Text → ℕ → ℕ → ℕ → ℕ → ℕ → Option Outcome
wait_from p upid interval deadline zero t due = none
wait_from p upid interval deadline (suc fuel) t due =
    let answered = t + p.latency t in
    let ticked = later_of answered due in
    let rest = wait_from p upid interval deadline fuel ticked (next_tick interval ticked) in
    elim (p.status_at deadline t) [
      | none ↦ some poll_failed
      | some st ↦
          if is_stopped st
          then some (task_result upid st)
          else if takes_tick p deadline answered due
          then rest
          else some cancelled
    ]

abbrev pub wait_with : Polls → Text → Option ℕ → WaitConfig → ℕ → Option Outcome
wait_with p upid caller cfg fuel =
    wait_from p upid cfg.poll_interval (with_timeout_of caller cfg.timeout) fuel 0 cfg.poll_interval

-- `caller` is when the caller's context is done, if it ever is.
unfoldable pub wait : Polls → Text → Option ℕ → List WaitOption → ℕ → Option Outcome
unfolding wait_from configure
wait p upid caller options = wait_with p upid caller (configure options default_config)

-- `strings.Contains`
pub contains : Text → Text → Bool
contains needle [] = elim (strip_prefix needle []) [ none ↦ false | some _ ↦ true ]
contains needle (c ∷ s) =
    let later = contains needle s in
    elim (strip_prefix needle (c ∷ s)) [ none ↦ later | some _ ↦ true ]

abbrev pub contains_not_found_pattern : (Text → Text) → Text → Bool
contains_not_found_pattern to_lower msg =
    contains (codes "does not exist") (to_lower msg)
    || contains (codes "no such container") (to_lower msg)

-- An error by what `errors.As` finds in its chain; each has its own text.
pub data ProxmoxError : Type 0 where
  api_error task_error other_error : Text → ProxmoxError

abbrev pub error_text : ProxmoxError → Text
error_text (api_error msg) = msg
error_text (task_error msg) = msg
error_text (other_error msg) = msg

unfoldable pub is_container_not_found : (Text → Text) → Option ProxmoxError → Bool
unfolding contains
is_container_not_found to_lower none = false
is_container_not_found to_lower (some e) = contains_not_found_pattern to_lower (error_text e)
