-- ===== src/Timer/Fixed.antt =====
-- The end of a timer (owtf/utils/timer.py) is fixed by the first look at it.

use owtf.Base.{ℕ, String, ◌≡◌, refl, ◌∙◌, false, none, some, str_eq}
use owtf.Base.Dict.{lookup, insert, lookup-insert, lookup-insert_other}
use owtf.Exceptions.{ok}
use owtf.Timer.{Reading, Timers, start_timer, end_timer, get_start_date_time, get_end_date_time}

-- Once a timer was started and its end was asked for, asking for it again, at whatever time, gives the
-- same end and changes nothing; its start is the time at which it was started, and every other timer
-- is as it was.
pub get_end_date_time-start_timer :
    (begin now later : ℕ) (o : String) (ts : Timers)
    → (ts' : Timers) × (get_end_date_time now o (start_timer begin o ts).1 ≡ ok (now, ts'))
      × (get_end_date_time later o ts' ≡ ok (now, ts'))
      × (get_start_date_time o ts' ≡ ok begin)
      × ((o' : String) → str_eq o o' ≡ false → lookup o' ts' ≡ lookup o' ts)
unfolding start_timer get_end_date_time end_timer get_start_date_time
get_end_date_time-start_timer begin now later o ts =
    let begun : Reading = record { start = begin; end = none } in
    let ended : Reading = record { start = begin; end = some now } in
    let first = insert o begun ts in
    let second = insert o ended first in
    let at_first = lookup-insert o begun ts in
    let at_second = lookup-insert o ended first in
    (
      second,
      rw (start_timer, get_end_date_time, at_first, end_timer, at_first) refl,
      rw (get_end_date_time, at_second) refl,
      rw (get_start_date_time, at_second) refl,
      λ o' other.
          lookup-insert_other o o' ended first other ∙ lookup-insert_other o o' begun ts other,
    )
