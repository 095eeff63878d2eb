-- ===== src/ApmTransport/Invariant/Timeout.antt =====
-- The time-out of a command in APInterface/APMTransport.cpp keeps the invariant: the repeats, the
-- port that is opened again, and the reset of the access point.
use apbridge.Prelude.{
  ℕ, zero, suc, ◌≡◌, refl, sym, ◌∙◌, Bool, true, false, ◌&&◌, List, if◌then◌else◌, ltb, if_both,
}
use apbridge.ApmTransport.State.{Transport, Event, emit, Stats, stop_program, cancel_ping_timer}
use apbridge.ApmTransport.Send.{
  send, start_retry_timer, stop_ping_timer, send_ap_lost_notif, hw_reset_ap, reopen, reopen_events,
  send_retry, handle_retry_timeout, repeat_command, abort,
}
use apbridge.ApmTransport.Invariant.{Inv, told_normal, quiet-Inv, send-Inv, send_ap_lost_notif-Inv}

pub hw_reset_ap-Inv : (t : Transport) → Inv t → Inv (hw_reset_ap t)
unfolding hw_reset_ap told_normal
hw_reset_ap-Inv t v = record {
  room = v.room;
  in_flight = v.in_flight;
  response_id = v.response_id;
  notification_id = v.notification_id;
  flow = v.flow;
}

told_normal-reopen_events :
    (n : ℕ) (es : List Event) → told_normal (reopen_events n es) ≡ told_normal es
unfolding told_normal reopen_events
told_normal-reopen_events zero es = refl
told_normal-reopen_events (suc zero) es = refl
told_normal-reopen_events (suc (suc zero)) es = refl
told_normal-reopen_events (suc (suc (suc n))) es = refl

reopen-Inv : (t : Transport) → Inv t → Inv (reopen t)
unfolding reopen
reopen-Inv t v = record {
  room = v.room;
  in_flight = v.in_flight;
  response_id = v.response_id;
  notification_id = v.notification_id;
  flow = v.flow ∙ sym (told_normal-reopen_events t.reopen_calls t.events);
}

-- The count of the repeats, the statistics and the timer are not read by the invariant.
counted-Inv :
    (t : Transport) (stats : Stats) (n : ℕ)
    → Inv t
    → Inv (start_retry_timer (record t { stats = stats; cur_retry_count = n }))
unfolding start_retry_timer told_normal
counted-Inv t stats n v = record {
  room = v.room;
  in_flight = v.in_flight;
  response_id = v.response_id;
  notification_id = v.notification_id;
  flow = v.flow;
}

repeat_command-Inv : (t : Transport) → Inv t → Inv (repeat_command t)
unfolding repeat_command send_retry
repeat_command-Inv t v = counted-Inv (send false t1) _ _ (send-Inv false t1 ready)
  where
    t1 : Transport
    t1 = if t.reconnect_serial && ltb 0 t.cur_retry_count then reopen t else t

    ready : Inv t1
    ready =
        if_both Inv (t.reconnect_serial && ltb 0 t.cur_retry_count) (reopen t) t
          (λ _. reopen-Inv t v) (λ _. v)

abort-Inv : (t : Transport) → Inv t → Inv (abort t)
unfolding abort told_normal
abort-Inv t v =
    if_both Inv t1.reconnect_serial (emit stop_program t1) t1
      (λ _. quiet-Inv stop_program t1 refl lost) (λ _. lost)
  where
    t1 : Transport
    t1 = hw_reset_ap (send_ap_lost_notif t)

    lost : Inv t1
    lost = hw_reset_ap-Inv _ (send_ap_lost_notif-Inv t v)

pub stop_ping_timer-Inv : (t : Transport) → Inv t → Inv (stop_ping_timer t)
unfolding stop_ping_timer told_normal
stop_ping_timer-Inv t v = quiet-Inv cancel_ping_timer t refl v

pub handle_retry_timeout-Inv :
    (error : Bool) (t : Transport) → Inv t → Inv (handle_retry_timeout error t)
unfolding handle_retry_timeout
handle_retry_timeout-Inv true t v = v
handle_retry_timeout-Inv false t v =
    if_both Inv (ltb t.cur_retry_count t.params.max_retries) (repeat_command t)
      (if t1.abort_enabled then abort t1 else t1) (λ _. repeat_command-Inv t v)
      (λ _. if_both Inv t1.abort_enabled (abort t1) t1 (λ _. abort-Inv t1 stopped) (λ _. stopped))
  where
    t1 : Transport
    t1 = stop_ping_timer t

    stopped : Inv t1
    stopped = stop_ping_timer-Inv t v
