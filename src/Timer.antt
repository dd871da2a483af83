-- ===== src/Timer.antt =====
-- The timers of owtf/utils/timer.py: when each started and ended. `timers` is an attribute of the
-- class, so that all instances share it; a time is a number of the clock's units.

use owtf.Base.{ℕ, String, Option, none, some}
use owtf.Base.Dict.{Dict, lookup, insert}
use owtf.Exceptions.{Result, ok, err, ◌>>=◌, key_error}
pub mod Fixed

pub record Reading : Type 0 where
  pub start : ℕ
  pub end : Option ℕ

-- The dictionary `timers`, by offset.
abbrev pub Timers : Type 0
Timers = Dict Reading

unfoldable pub start_timer : (now : ℕ) → String → Timers → ℕ × Timers
start_timer now offset ts = (now, insert offset (record { start = now; end = none }) ts)

unfoldable pub end_timer : (now : ℕ) → String → Timers → Result Timers
end_timer now offset ts = elim (lookup offset ts) [
  | none ↦ err key_error
  | some r ↦ ok (insert offset (record r { end = some now }) ts)
]

unfoldable pub get_start_date_time : String → Timers → Result ℕ
get_start_date_time offset ts = elim (lookup offset ts) [
  | none ↦ err key_error
  | some r ↦ ok r.start
]

-- A timer that still runs is ended.
unfoldable pub get_end_date_time : (now : ℕ) → String → Timers → Result (ℕ × Timers)
unfolding end_timer
get_end_date_time now offset ts = elim (lookup offset ts) [
  | none ↦ err key_error
  | some r ↦ elim r.end [
    | some at ↦ ok (at, ts)
    | none ↦ do ended ← end_timer now offset ts; ok (now, ended)
  ]
]
