-- ===== src/Scheduler/Tests.antt =====
-- Values of schedules at times of UTC, and the theorem at a concrete schedule.
use espidf_component_webmana.Prelude.{
  ℕ, ◌+◌, ◌/◌, ◌%◌, ◌<◌, ◌≡◌, refl, ◌++◌, [], ◌∷◌, arith, length, replicate,
}
use espidf_component_webmana.Prelude.Text.{Bytes, codes, same_text}
use espidf_component_webmana.Scheduler.{
  uint16_max, on_if, Tm, Timers, always, working_days_7_18, one_week_in_15_minutes,
  get_current_value, get_current_value_of_schedule,
}
use espidf_component_webmana.Scheduler.Quarters.{
  quarter, has_bit, get_current_value_of_schedule-quarter,
}

abbrev utc : ℕ → Tm
utc n = record { tm_wday = (n / 86400 + 4) % 7; tm_hour = n % 86400 / 3600; tm_min = n % 3600 / 60 }

-- On on Fridays from 8:30 to 9:15.
abbrev friday : Bytes
friday = replicate 64 0 ++ 28 ∷ replicate 19 0

abbrev timers : Timers
timers = ((codes "always"), always) ∷ ((codes "friday"), one_week_in_15_minutes friday) ∷ []

-- A Friday.
friday_8_50 : get_current_value_of_schedule utc timers (codes "friday") 1800003000 ≡ uint16_max
unfolding get_current_value_of_schedule same_text
friday_8_50 = refl

friday_9_20 : get_current_value_of_schedule utc timers (codes "friday") 1800004800 ≡ 0
unfolding get_current_value_of_schedule same_text
friday_9_20 = refl

unknown_name : get_current_value_of_schedule utc timers (codes "monday") 1800000000 ≡ 0
unfolding get_current_value_of_schedule same_text
unknown_name = refl

unset_clock : get_current_value_of_schedule utc timers (codes "always") 2000 ≡ 1
unfolding get_current_value_of_schedule same_text
unset_clock = refl

-- The working days have a Sunday among them.
working_day_on_sunday :
    get_current_value working_days_7_18 0 (record { tm_wday = 0; tm_hour = 8; tm_min = 0 })
    ≡ uint16_max
unfolding get_current_value
working_day_on_sunday = refl

get_current_value_of_schedule-quarter_example :
    (quarter (utc 1800003000) / 8 < length friday)
    × (get_current_value_of_schedule utc timers (codes "friday") 1800003000
        ≡ on_if (has_bit friday (quarter (utc 1800003000))))
unfolding get_current_value_of_schedule same_text
get_current_value_of_schedule-quarter_example =
    get_current_value_of_schedule-quarter utc timers (codes "friday") friday 1800003000 refl refl
      refl (record { wday = omega arith; hour = omega arith; minute = omega arith })
