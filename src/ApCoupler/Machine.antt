-- ===== src/ApCoupler/Machine.antt =====
-- The state machine of APInterface/APCoupler.cpp, which one thread runs. Its program is cut at the
-- waits: a place says where the thread is, and a turn takes it on. A turn is a look at the events with
-- their lock held, or what the thread does from the end of a wait to the next one. What other threads
-- do comes between the turns.
use Prim.Native.Nat.{bit_xor}
use apbridge.Prelude.{
  ℕ, zero, suc, ◌+◌, ◌-◌, ◌*◌, Bool, true, false, not, ◌&&◌, Option, none, some, if◌then◌else◌, ltb,
  ◌==◌,
}
use apbridge.ApcSerializer.{is_ok}
use apbridge.ApCoupler.State.{
  Call, enable_join, disable_join, hw_reset_ap, disable_abort, enable_abort, stop_transport,
  start_client, stop_client, stop_gps, stop_node, sleep_retry, start_leap_timer, World, Coupler,
  InitParam, systime_empty, emit, emit_if, emit_through,
}
use apbridge.ApCoupler.State
use apbridge.ApCoupler.Send.{
  has_any, e_apm_boot, e_apm_reboot, e_apm_lost, e_mngr_connect, e_mngr_disconnect, e_timeout,
  e_ap_reset, e_ap_disconnect, e_stop,
}
use apbridge.ApCoupler.Time.{
  ℤ, pos, negsuc, is_negative, ap_blackout, sec_since_midnight_p, leap_checking_timer_p,
}

-- What a look at the events finds: nothing to wait for yet, a request to stop, which is an exception,
-- or the events that the wait returns.
pub data Look : Type 0 where
  again stop_seen : Coupler → Look
  got : ℕ → Coupler → Look

-- A timeout of 0 is none.
abbrev pub finish_of : ℕ → Coupler → Option ℕ
finish_of timeout_msec c = if timeout_msec == 0 then none else some (c.now + timeout_msec)

abbrev pub is_over : Option ℕ → Coupler → Bool
is_over none c = false
is_over (some finish) c = not (ltb c.now finish)

-- A round of `waitEvents_p`.
unfoldable pub look : ℕ → Option ℕ → Coupler → Look
look mask finish c =
    let c' = record c { events = 0 } in
    if (c.events == 0) && not (is_over finish c)
    then again c
    else if has_any c.events e_stop
    then stop_seen c'
    else if has_any c.events mask
    then got c.events c'
    else if (c.events == 0) && is_over finish c
    then got e_timeout c'
    else again c'

-- Where the thread waits: for the end of a blackout at the start; in `prepareAP_p`, with the resets
-- that are left and the timeout; between two starts of the client; for the manager's connection; for
-- the end of it; in `synchStop_p`, before a new start or with the events that are then returned; in
-- the last `prepareAP_p`; or nowhere, since it has ended. Or a wait has just returned some events.
pub data Place : Type 0 where
  blackout : Option ℕ → Place
  preparing : ℕ → ℕ → Option ℕ → Place
  sleeping : ℕ → Place
  connecting joined : Place
  stopping : Option ℕ → Option ℕ → Place
  last : Option ℕ → Place
  ended : Place
  returned : Place → ℕ → Place

abbrev pub max_num_reset : ℕ
max_num_reset = 3

abbrev pub boots : ℕ
boots = e_apm_boot + e_apm_reboot

-- `RETRY_INTERVAL`
abbrev pub retry_interval : ℕ
retry_interval = 1000

unfoldable pub sleep : Coupler → Place × Coupler
sleep c = (sleeping (c.now + retry_interval), emit sleep_retry c)

-- `synchStop_p` between two starts.
unfoldable pub synch_stop_retry : World → Coupler → Place × Coupler
synch_stop_retry w c =
    let c' = emit_through c.has_client stop_client c in
    if w.is_connected c.calls then (stopping none (some (c.now + 1000)), c') else sleep c'

-- The start of the client in `runStateMachine_p`.
unfoldable pub run_state_machine_p : World → Coupler → Place × Coupler
run_state_machine_p w c =
    let c' = emit_through c.has_client start_client c in
    if is_ok (w.client_starts c.calls) then (connecting, c') else synch_stop_retry w c'

-- `prepareAP_p` of an access point that is lost, or is not.
unfoldable pub prepare : ℕ → Coupler → Place × Coupler
prepare e c =
    let c1 = emit_through c.has_transport disable_abort c in
    if has_any e e_apm_lost
    then (
      preparing max_num_reset c.hw_reset_timeout_msec (finish_of c.hw_reset_timeout_msec c),
      emit_through c.has_transport hw_reset_ap c1,
    )
    else (let timeout =
          if has_any e e_ap_reset
          then c.disconnect_timeout_short_msec
          else c.disconnect_timeout_long_msec in
        (
          preparing max_num_reset timeout (finish_of timeout c),
          emit_through c.has_transport (State.disconnect_ap true) c1,
        ))

-- `prepareAP_p`, and what follows on it, for events without a stop.
unfoldable pub prepare_ap_p : World → ℕ → Coupler → Place × Coupler
prepare_ap_p w e c = if has_any e boots then run_state_machine_p w c else prepare e c

-- `prepareAP_p` for a stop, after the exception.
unfoldable pub prepare_stop : Coupler → Place × Coupler
prepare_stop c = (
  last (finish_of c.disconnect_timeout_long_msec c),
  emit_through c.has_transport (State.disconnect_ap true)
      (emit_through c.has_transport disable_join (emit_through c.has_transport disable_abort c)),
)

-- `synchStop_p` at the end of `runStateMachine_p`, and the next round.
unfoldable pub synch_stop_p : World → ℕ → Coupler → Place × Coupler
synch_stop_p w e c =
    let c' = emit_through c.has_client stop_client c in
    if w.is_connected c.calls
    then (stopping (some e) (some (c.now + 1000)), c')
    else prepare_ap_p w e c'

-- A timeout in `prepareAP_p`.
unfoldable pub no_boot : ℕ → ℕ → Coupler → Place × Coupler
no_boot zero timeout c = (preparing zero timeout (finish_of timeout c), emit stop_node c)
no_boot (suc n) timeout c = (
  preparing n c.hw_reset_timeout_msec (finish_of c.hw_reset_timeout_msec c),
  emit_through c.has_transport hw_reset_ap c,
)

-- The rest of `smThreadFun_p` before its loop, and the first `prepareAP_p`.
unfoldable pub begin_work : World → Coupler → Place × Coupler
begin_work w c =
    let c' = leap_checking_timer_p w false c in
    prepare_ap_p w e_ap_reset (emit_through c.has_transport disable_join c')

abbrev pub ap_blackout_sec : ℕ
ap_blackout_sec = 60

-- The wait of a start within a blackout, in milliseconds.
unfoldable pub blackout_wait : ℤ → ℕ
blackout_wait (pos n) = (ap_blackout_sec + n) * 1000
blackout_wait (negsuc n) = (ap_blackout_sec - suc n) * 1000

-- `smThreadFun_p` up to its first wait.
unfoldable pub begin_thread : World → Coupler → Place × Coupler
begin_thread w c =
    let sec = sec_since_midnight_p ap_blackout (w.cur_utc c.sys_now) in
    if is_negative sec && w.is_leap_day c.sys_now
    then (blackout (finish_of (blackout_wait sec) c), c)
    else begin_work w c

-- The end of the wait for a connection: only one Connect event lets the access point join.
unfoldable pub after_connecting : World → ℕ → Coupler → Place × Coupler
after_connecting w e c =
    if bit_xor e e_mngr_connect == 0
    then (joined, emit_through c.has_transport (enable_join (w.net_id c.calls)) c)
    else synch_stop_p w e c

abbrev pub connecting_mask : ℕ
connecting_mask = e_mngr_connect + e_mngr_disconnect + e_apm_boot + e_apm_lost + e_ap_reset

abbrev pub joined_mask : ℕ
joined_mask =
    e_mngr_disconnect + e_apm_lost + e_apm_reboot + e_apm_boot + e_ap_disconnect + e_ap_reset

-- What follows on the wait of a place that a look has ended.
unfoldable pub resume_at : World → Place → ℕ → Coupler → Place × Coupler
resume_at w (blackout finish) e c = begin_work w c
resume_at w (preparing n timeout finish) e c =
    if e == e_timeout
    then no_boot n timeout c
    else run_state_machine_p w (emit_through c.has_transport enable_abort c)
resume_at w (sleeping until) e c = run_state_machine_p w c
resume_at w connecting e c = after_connecting w e c
resume_at w joined e c = synch_stop_p w e c
resume_at w (stopping none finish) e c = sleep c
resume_at w (stopping (some events) finish) e c = prepare_ap_p w events c
resume_at w (last finish) e c = (ended, emit_through c.has_transport enable_abort c)
resume_at w ended e c = (ended, c)
resume_at w (returned p e') e c = (ended, c)

abbrev pub mask_of : Place → ℕ
mask_of (preparing n timeout finish) = boots
mask_of connecting = connecting_mask
mask_of joined = joined_mask
mask_of (stopping events finish) = e_mngr_disconnect
mask_of (last finish) = boots
mask_of _ = 0

abbrev pub end_of : Place → Option ℕ
end_of (blackout finish) = finish
end_of (preparing n timeout finish) = finish
end_of (stopping events finish) = finish
end_of (last finish) = finish
end_of _ = none

-- The exception goes to the end of the loop, or out of the last `prepareAP_p`.
unfoldable pub stopped_at : Place → Coupler → Place × Coupler
stopped_at (last finish) c = (ended, c)
stopped_at p c = prepare_stop c

unfoldable pub after_look : World → Place → Look → Place × Coupler
after_look w p (again c) = (p, c)
after_look w p (stop_seen c) = stopped_at p c
after_look w p (got e c) = (returned p e, c)

-- A turn of the thread. A sleep looks at the clock only.
unfoldable pub turn : World → Place → Coupler → Place × Coupler
turn w ended c = (ended, c)
turn w (returned p e) c = resume_at w p e c
turn w (sleeping until) c = if ltb c.now until then (sleeping until, c) else run_state_machine_p w c
turn w p c = after_look w p (look (mask_of p) (end_of p) c)
