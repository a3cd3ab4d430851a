-- ===== src/Scheduler.antt =====
-- cpp/scheduler_timers.hh and cpp/scheduler.hh: the timers, and the value of a schedule at a time.
-- A sun timer holds its two floats as their bits, and the two times that NewDayHasBegun last computed
-- in floating point.
pub mod Flash
pub mod Map
pub mod Requests
pub mod Restore
pub mod Restart
pub mod Saving
pub mod Memory
mod Naming
mod Quarters
mod Tests
mod RequestTests
use espidf_component_webmana.Prelude.{
  ℕ, ◌+◌, ◌-◌, ◌*◌, ◌/◌, ◌%◌, ◌^◌, bit_and, Bool, not, ◌&&◌, Option, none, some, List, [], ◌∷◌, ltb,
  leb, ◌==◌, if◌then◌else◌, get_or,
}
use espidf_component_webmana.Prelude.Text.{Bytes, same_text}

abbrev pub uint16_max : ℕ
uint16_max = 65535

pub data Timer : Type 0 where
  always : Timer
  never : Timer
  daily_6_22 : Timer
  working_days_7_18 : Timer
  test_even_minutes_on_odd_minutes_off : Timer
  one_week_in_15_minutes : Bytes → Timer
  sun_random : (offset_hours random_hours todays_start todays_end : ℕ) → Timer

-- What the timers read of a `struct tm`: weekday from Sunday as 0, hours and minutes.
pub record Tm : Type 0 where
  pub tm_wday : ℕ
  pub tm_hour : ℕ
  pub tm_min : ℕ

abbrev pub on_if : Bool → ℕ
on_if b = if b then uint16_max else 0

-- `fifteenMinutesSlot`, a uint8_t
unfoldable pub fifteen_minutes_slot : Tm → ℕ
fifteen_minutes_slot t = (4 * (t.tm_hour % 2) + t.tm_min / 15) % 2 ^ 8

-- OneWeekIn15MinutesTimer. `data` has 84 bytes; an index behind them has no defined result in
-- the source and reads 0 here.
unfoldable pub week_value : Bytes → Tm → ℕ
unfolding fifteen_minutes_slot
week_value bytes t = on_if (
    not
      (bit_and (get_or bytes (t.tm_wday * 12 + t.tm_hour / 2) 0) (2 ^ fifteen_minutes_slot t) == 0))

-- GetCurrentValue of each class.
unfoldable pub get_current_value : Timer → ℕ → Tm → ℕ
unfolding week_value
get_current_value always unix_secs t = uint16_max
get_current_value never unix_secs t = 0
get_current_value daily_6_22 unix_secs t = on_if (leb 6 t.tm_hour && ltb t.tm_hour 22)
get_current_value working_days_7_18 unix_secs t =
    if ltb 5 t.tm_wday then 0 else on_if (leb 7 t.tm_hour && ltb t.tm_hour 18)
get_current_value test_even_minutes_on_odd_minutes_off unix_secs t = on_if (t.tm_min % 2 == 0)
get_current_value (one_week_in_15_minutes bytes) unix_secs t = week_value bytes t
get_current_value (sun_random offset_hours random_hours todays_start todays_end) unix_secs t =
    on_if (leb todays_start unix_secs && leb unix_secs todays_end)

-- `name2timer`, and its `at`.
abbrev pub Timers : Type 0
Timers = List (Bytes × Timer)

unfoldable pub find_timer : Timers → Bytes → Option Timer
find_timer [] name = none
find_timer ((key, timer) ∷ timers) name =
    if same_text key name then some timer else find_timer timers name

-- The clock runs for at least half an hour and has no valid timestamp.
unfoldable pub is_clock_unset : ℕ → Bool
is_clock_unset current_time = ltb 1800 current_time && ltb current_time 1716498366

abbrev pub value_at : (ℕ → Tm) → ℕ → Option Timer → ℕ
value_at localtime current_time none = 0
value_at localtime current_time (some timer) =
    if is_clock_unset current_time
    then 1
    else get_current_value timer current_time (localtime current_time)

-- GetCurrentValueOfSchedule, with the time that `time` gives. A `true` is a uint16_t of 1.
unfoldable pub get_current_value_of_schedule : (ℕ → Tm) → Timers → Bytes → ℕ → ℕ
unfolding find_timer is_clock_unset get_current_value
get_current_value_of_schedule localtime name2timer scheduler_name current_time =
    value_at localtime current_time (find_timer name2timer scheduler_name)
