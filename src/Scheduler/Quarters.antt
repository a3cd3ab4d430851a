-- ===== src/Scheduler/Quarters.antt =====
-- The week of a OneWeekIn15MinutesTimer as a bitmap of 672 quarters of an hour.
use espidf_component_webmana.Prelude.{
  ℕ, ◌+◌, ◌*◌, ◌/◌, ◌%◌, ◌^◌, ◌<◌, bit_and, Bool, not, false, ◌≡◌, some, arith, ◌==◌, length,
  get_or,
}
use espidf_component_webmana.Prelude.Text.{Bytes}
use espidf_component_webmana.Scheduler.{
  on_if, Tm, one_week_in_15_minutes, Timers, fifteen_minutes_slot, week_value, get_current_value,
  find_timer, is_clock_unset, get_current_value_of_schedule,
}

-- A time of the calendar.
pub record IsTime (t : Tm) : Type 0 where
  pub wday : t.tm_wday < 7
  pub hour : t.tm_hour < 24
  pub minute : t.tm_min < 60

-- The quarters of an hour since Sunday, 0:00.
unfoldable pub quarter : Tm → ℕ
quarter t = (t.tm_wday * 24 + t.tm_hour) * 4 + t.tm_min / 15

quarter_byte : (t : Tm) → IsTime t → quarter t / 8 ≡ t.tm_wday * 12 + t.tm_hour / 2
unfolding quarter
quarter_byte t h = omega (arith, h.minute)

quarter_bit : (t : Tm) → IsTime t → quarter t % 8 ≡ fifteen_minutes_slot t
unfolding quarter fifteen_minutes_slot
quarter_bit t h = omega (arith, h.minute)

quarter_bound : (t : Tm) → IsTime t → quarter t / 8 < 84
unfolding quarter
quarter_bound t h = omega (arith, h.wday, h.hour, h.minute)

-- A bit of a bitmap, the lowest bit of a byte first.
unfoldable pub has_bit : Bytes → ℕ → Bool
has_bit bytes n = not (bit_and (get_or bytes (n / 8) 0) (2 ^ (n % 8)) == 0)

week_value-quarter :
    (bytes : Bytes) (t : Tm) → IsTime t → week_value bytes t ≡ on_if (has_bit bytes (quarter t))
unfolding week_value has_bit
week_value-quarter bytes t h = rw (quarter_byte t h, quarter_bit t h)

-- A schedule of one week with a name that the scheduler knows, at a set clock and a time of the
-- calendar: of the bitmap of 672 quarters of an hour that begins on Sunday at 0:00, with the
-- lowest bit of each byte first, the quarter of the time is inside the 84 bytes, and the value is
-- UINT16_MAX if its bit is set and 0 if not.
pub get_current_value_of_schedule-quarter :
    (localtime : ℕ → Tm) (name2timer : Timers) (name bytes : Bytes) (now : ℕ)
    → find_timer name2timer name ≡ some (one_week_in_15_minutes bytes)
    → length bytes ≡ 84
    → is_clock_unset now ≡ false
    → IsTime (localtime now)
    → (quarter (localtime now) / 8 < length bytes)
      × (get_current_value_of_schedule localtime name2timer name now
          ≡ on_if (has_bit bytes (quarter (localtime now))))
unfolding get_current_value_of_schedule get_current_value
get_current_value_of_schedule-quarter localtime name2timer name bytes now found len set h = (
  omega (arith, quarter_bound (localtime now) h, len),
  rw (found, set, week_value-quarter bytes (localtime now) h),
)
