-- ===== src/ApCoupler/Time.antt =====
-- The time of day in APInterface/APCoupler.cpp, and the check for a leap second.
use apbridge.Prelude.{ℕ, suc, ◌+◌, ◌-◌, ◌*◌, ◌^◌, Bool, true, false, if◌then◌else◌, ltb}
use apbridge.ApCoupler.State.{start_leap_timer, World, Coupler, systime_empty, emit}

-- `int`, of which only sums and differences of small numbers are needed.
pub data ℤ : Type 0 where
  pos negsuc : ℕ → ℤ

-- The difference of two natural numbers.
unfoldable pub sub_ℕ : ℕ → ℕ → ℤ
sub_ℕ a b = if ltb a b then negsuc (b - suc a) else pos (a - b)

abbrev pub is_negative : ℤ → Bool
is_negative (pos n) = false
is_negative (negsuc n) = true

abbrev pub utc_midnight : ℕ
utc_midnight = (23 * 60 + 59) * 60 + 59

abbrev pub ap_blackout : ℕ
ap_blackout = utc_midnight - 30

abbrev pub leap_check_time : ℕ
leap_check_time = utc_midnight - 180

-- The seconds of a day at a time of it.
abbrev pub sec_of_day : ℕ × ℕ × ℕ → ℕ
sec_of_day (hour, min, sec) = (hour * 60 + min) * 60 + sec

-- `secSinceMidnight_p` without a borrowed day.
unfoldable pub sec_since_midnight_p : ℕ → ℕ × ℕ × ℕ → ℤ
sec_since_midnight_p utc_sec utc = sub_ℕ utc_sec (sec_of_day utc)

-- With a borrowed day the result is not negative.
unfoldable pub sec_to_next : ℕ → ℕ × ℕ × ℕ → ℕ
sec_to_next utc_sec utc =
    if ltb (sec_of_day utc) utc_sec
    then utc_sec - sec_of_day utc
    else utc_sec + 24 * 60 * 60 - sec_of_day utc

-- `leapCheckingTimer_p`
unfoldable pub leap_checking_timer_p : World → Bool → Coupler → Coupler
leap_checking_timer_p w error c =
    if error
    then c
    else (let start =
          if w.is_leap_day c.sys_now
          then c.sys_now + sec_to_next ap_blackout (w.cur_utc c.sys_now) * 10 ^ 6
          else systime_empty in
        emit (start_leap_timer (sec_to_next leap_check_time (w.cur_utc c.sys_now)))
          (record c { blackout_start = start }))
