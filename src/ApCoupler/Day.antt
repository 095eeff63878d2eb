-- ===== src/ApCoupler/Day.antt =====
-- The times of day of APInterface/APCoupler.cpp.
use apbridge.Prelude.{
  ℕ, ◌+◌, ◌*◌, ◌%◌, ◌^◌, ◌<◌, ◌≤◌, ◌≡◌, refl, true, false, ◌∷◌, some, arith, if◌then◌else◌, lt→ltb,
}
use apbridge.ApCoupler.State.{World, Coupler, start_leap_timer, systime_empty}
use apbridge.ApCoupler.Time.{
  is_negative, sec_since_midnight_p, sub_ℕ, sec_of_day, sec_to_next, ap_blackout, leap_check_time,
  leap_checking_timer_p,
}
use apbridge.ApCoupler.Machine.{blackout, begin_thread, blackout_wait, finish_of}

-- The seconds of a day, the one that may be added at its end included.
abbrev pub IsTime : ℕ × ℕ × ℕ → Type 0
IsTime utc = sec_of_day utc ≤ 86400

blackout_wait-bounds :
    (n : ℕ)
    → ap_blackout < n
    → n ≤ 86400
    → (29000 ≤ blackout_wait (sub_ℕ ap_blackout n)) × (blackout_wait (sub_ℕ ap_blackout n) < 60000)
unfolding blackout_wait sub_ℕ
blackout_wait-bounds n after day = rw (lt→ltb _ _ after) (omega (arith, after, day))

negative_lem : (n : ℕ) → ap_blackout < n → is_negative (sub_ℕ ap_blackout n) ≡ true
unfolding sub_ℕ
negative_lem n after = rw (lt→ltb _ _ after) refl

waiting_lem : (n : ℕ) (c : Coupler) → 29000 ≤ n → finish_of n c ≡ some (c.now + n)
waiting_lem n c long = ground (arith, long)

-- A start within the blackout at the end of a day with a leap second waits before it touches the
-- access point, until between 29 and 60 seconds later: the wait always has an end, which waitEvents_p
-- would not give it for a timeout of 0.
pub begin_thread-bounds :
    (w : World) (c : Coupler)
    → IsTime (w.cur_utc c.sys_now)
    → ap_blackout < sec_of_day (w.cur_utc c.sys_now)
    → w.is_leap_day c.sys_now ≡ true
    → (finish : ℕ) × (begin_thread w c ≡ (blackout (some finish), c))
      × (c.now + 29000 ≤ finish)
      × (finish < c.now + 60000)
unfolding begin_thread sec_since_midnight_p
begin_thread-bounds w c day after leap =
    let n = sec_of_day (w.cur_utc c.sys_now) in
    let msec = blackout_wait (sub_ℕ ap_blackout n) in
    let (least, most) = blackout_wait-bounds n after day in
    (
      c.now + msec,
      rw (negative_lem n after, leap, waiting_lem msec c least) refl,
      omega (arith, least),
      omega (arith, most),
    )

sec_to_next-bounds :
    (t : ℕ) (utc : ℕ × ℕ × ℕ)
    → IsTime utc
    → 0 < t
    → t < 86400
    → (0 < sec_to_next t utc)
      × (sec_to_next t utc ≤ 86400)
      × ((sec_of_day utc + sec_to_next t utc) % 86400 ≡ t)
unfolding sec_to_next
sec_to_next-bounds t utc day late early = ground (arith, day, late, early)

-- The check for a leap second at any time: the next one is 1 second to a day later, at three minutes
-- before midnight; and on a day with a leap second the blackout begins at most a day later, at
-- half a minute before midnight.
pub leap_checking_timer_p-Next :
    (w : World) (c : Coupler)
    → IsTime (w.cur_utc c.sys_now)
    → (next until : ℕ) × (leap_checking_timer_p w false c ≡ record c {
      blackout_start =
          if w.is_leap_day c.sys_now then c.sys_now + until * 10 ^ 6 else systime_empty;
      calls = start_leap_timer next ∷ c.calls;
    })
      × ((0 < next)
          × (next ≤ 86400)
          × ((sec_of_day (w.cur_utc c.sys_now) + next) % 86400 ≡ leap_check_time))
      × ((0 < until)
          × (until ≤ 86400)
          × ((sec_of_day (w.cur_utc c.sys_now) + until) % 86400 ≡ ap_blackout))
unfolding leap_checking_timer_p
leap_checking_timer_p-Next w c day = (
  sec_to_next leap_check_time (w.cur_utc c.sys_now),
  sec_to_next ap_blackout (w.cur_utc c.sys_now),
  refl,
  sec_to_next-bounds _ _ day (omega arith) (omega arith),
  sec_to_next-bounds _ _ day (omega arith) (omega arith),
)
