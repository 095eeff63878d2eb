-- ===== src/ApmTransport/Invariant/Join.antt =====
-- Pings, the queue check, boot and join of APInterface/APMTransport.cpp keep the invariant.
use apbridge.Prelude.{
  ℕ, inl, refl, Bool, true, false, not, ◌&&◌, List, [], ◌∷◌, none, arith, ◌==◌, length, if_both,
}
use apbridge.ApmTransport.State.{
  Transport, Command, apm_flow_normal, emit, ap_resume, ap_boot, cmd_getparam, cmd_setparam,
  cmd_join, param_macaddr,
}
use apbridge.ApmTransport.Send.{
  ping_timer, stop_ping_timer, stop_retry_timer, queue_check_timer, is_normal,
  set_ap_connection_state, set_join_process_state,
}
use apbridge.ApmTransport.Join.{
  insert, send_ping, handle_ping_timeout, send_mgr_resume, check_queue, handle_queue_check_timeout,
  clear_output_queue, disconnect_ap, start_join, disable_join, enable_join, handle_ap_boot, booted,
  rebooted, stop,
}
use apbridge.ApmTransport.Invariant.{Inv, told_normal, alike-Inv, insert_msg-Inv, pause_manager-Inv}
use apbridge.ApmTransport.Invariant.Timeout.{stop_ping_timer-Inv}

pub ping_timer-Inv : (t : Transport) → Inv t → Inv (ping_timer t)
unfolding ping_timer told_normal
ping_timer-Inv t v = alike-Inv t _ refl refl refl refl refl refl refl v

pub stop_retry_timer-Inv : (t : Transport) → Inv t → Inv (stop_retry_timer t)
unfolding stop_retry_timer told_normal
stop_retry_timer-Inv t v = alike-Inv t _ refl refl refl refl refl refl refl v

insert-Inv : (cmd_id : ℕ) (bytes : List ℕ) (t : Transport) → Inv t → Inv (insert cmd_id bytes t).1
insert-Inv cmd_id bytes t v = insert_msg-Inv cmd_id bytes false none none false t v

pub handle_ping_timeout-Inv :
    (error : Bool) (t : Transport) → Inv t → Inv (handle_ping_timeout error t)
unfolding handle_ping_timeout send_ping
handle_ping_timeout-Inv true t v = v
handle_ping_timeout-Inv false t v = ping_timer-Inv _ (
    if_both Inv (length t.output_queue == 0) (send_ping t).1 t
      (λ _. insert-Inv cmd_getparam (param_macaddr ∷ []) t v) (λ _. v))

send_mgr_resume-Inv : (t : Transport) → Inv t → Inv (send_mgr_resume t)
unfolding send_mgr_resume told_normal
send_mgr_resume-Inv t v =
    if_both Inv (is_normal t.mngr_input_state) t
      (record (emit ap_resume t) { mngr_input_state = apm_flow_normal }) (λ _. v)
      (λ _. record {
        room = v.room;
        in_flight = v.in_flight;
        response_id = v.response_id;
        notification_id = v.notification_id;
        flow = refl;
      })

queue_check_timer-Inv : (t : Transport) → Inv t → Inv (queue_check_timer t)
unfolding queue_check_timer told_normal
queue_check_timer-Inv t v = alike-Inv t _ refl refl refl refl refl refl refl v

check_queue-Inv : (queue : List Command) (t : Transport) → Inv t → Inv (check_queue queue t)
unfolding check_queue
check_queue-Inv [] t v = send_mgr_resume-Inv t v
check_queue-Inv (cmd ∷ rest) t v = queue_check_timer-Inv _ (pause_manager-Inv _ t v)

pub handle_queue_check_timeout-Inv :
    (error : Bool) (t : Transport) → Inv t → Inv (handle_queue_check_timeout error t)
unfolding handle_queue_check_timeout
handle_queue_check_timeout-Inv true t v = v
handle_queue_check_timeout-Inv false t v = check_queue-Inv t.output_queue t v

pub disconnect_ap-Inv : (synch : Bool) (t : Transport) → Inv t → Inv (disconnect_ap synch t)
unfolding disconnect_ap
disconnect_ap-Inv synch t v = insert_msg-Inv _ _ _ _ _ _ t v

start_join-Inv : (t : Transport) → Inv t → Inv (start_join t)
unfolding start_join
start_join-Inv t v =
    alike-Inv _ _ refl refl refl refl refl refl refl
      (insert-Inv cmd_join [] _ (insert-Inv cmd_setparam _ _ (insert-Inv cmd_getparam _ t v)))

pub disable_join-Inv : (t : Transport) → Inv t → Inv (disable_join t)
unfolding disable_join set_join_process_state
disable_join-Inv t v = alike-Inv t _ refl refl refl refl refl refl refl v

pub enable_join-Inv : (net_id : ℕ) (t : Transport) → Inv t → Inv (enable_join net_id t)
unfolding enable_join set_join_process_state
enable_join-Inv net_id t v =
    if_both Inv (true && t.is_ap_connected) (start_join t') t' (λ _. start_join-Inv t' joined)
      (λ _. joined)
  where
    t' : Transport
    t' = record t { net_id = net_id; is_mngr_connected = true }

    joined : Inv t'
    joined = alike-Inv t _ refl refl refl refl refl refl refl v

-- After a boot the queue is empty, and the manager may go on.
booted-Inv : (t : Transport) → Inv (booted (clear_output_queue t))
unfolding booted clear_output_queue stop_ping_timer stop_retry_timer set_ap_connection_state
    told_normal
booted-Inv t =
    if_both Inv (t.is_mngr_connected && true) (start_join t') t' (λ _. start_join-Inv t' fresh)
      (λ _. fresh)
  where
    t' : Transport
    t' = record (emit ap_boot (clear_output_queue t)) { is_ap_connected = true }

    fresh : Inv t'
    fresh = record {
      room = omega arith;
      in_flight = λ p. cc;
      response_id = inl refl;
      notification_id = inl refl;
      flow = refl;
    }

rebooted-Inv : (t : Transport) → Inv (rebooted (clear_output_queue t))
unfolding rebooted clear_output_queue stop_ping_timer stop_retry_timer told_normal
rebooted-Inv t = record {
  room = omega arith;
  in_flight = λ p. cc;
  response_id = inl refl;
  notification_id = inl refl;
  flow = refl;
}

pub handle_ap_boot-Inv : (t : Transport) → Inv (handle_ap_boot t)
unfolding handle_ap_boot
handle_ap_boot-Inv t =
    if_both Inv (not t'.is_running) (booted t') (rebooted t') (λ _. booted-Inv t)
      (λ _. rebooted-Inv t)
  where
    t' : Transport
    t' = clear_output_queue t

pub stop-Inv : (t : Transport) → Inv t → Inv (stop t)
unfolding stop told_normal
stop-Inv t v =
    alike-Inv _ _ refl refl refl refl refl refl refl
      (stop_ping_timer-Inv _ (stop_retry_timer-Inv t v))
