-- ===== src/ApmTransport/Invariant.antt =====
-- What every call of APInterface/APMTransport.cpp keeps: the bounds of the queue, the packet
-- numbers, and the flow control that the manager was told of.
pub mod Join
pub mod Receive
pub mod Timeout
use Prim.Native.Nat.{bit_and, bit_or, bit_xor}
use apbridge.Prelude.{
  ℕ, zero, suc, ◌+◌, ◌≤◌, ◌<◌, ◌≡◌, ◌≢◌, ◌⊎◌, inl, inr, refl, sym, ap, subst, ◌∙◌, Bool, true,
  false, not, ◌&&◌, List, [], ◌∷◌, ◌++◌, Option, none, some, arith, if◌then◌else◌, ltb, leb, ◌==◌,
  length, length-append, Bool-cases, ==-false→ne, if_both,
}
use apbridge.ApcProto.{ApcError, apc_ok, apc_err_state, apc_err_outbufoverflow}
use apbridge.ApmTransport.State.{
  Params, Transport, Event, ap_pause, ap_resume, ap_boot, ap_reboot, apm_flow_normal,
  apm_flow_pause, Command, ErrorResponse, emit, FlowControl, Stats, stop_program, cancel_ping_timer,
  cancel_output_timer, cancel_queue_timer, start_ping_timer, start_output_timer, start_queue_timer,
  handle_data, ap_lost, send_reset_ap, close_port, open_port, restart_port,
}
use apbridge.ApmTransport.Send.{
  send, send_front, send_command, ping_timer, start_retry_timer, stop_retry_timer, stop_ping_timer,
  start_nack_retry_timer, queue_check_timer, push, pause_manager, is_normal, check_queue_timer,
  insert_command, insert_msg, send_ap_lost_notif, set_ap_connection_state, set_join_process_state,
  hw_reset_ap, reopen, reopen_events, send_retry, handle_retry_timeout, repeat_command, abort,
}

-- What the manager was told last: to pause, or nothing that holds it back. A boot of the access
-- point lets it go on.
unfoldable pub told_normal : List Event → Bool
told_normal [] = true
told_normal (ap_pause ∷ es) = false
told_normal (ap_resume ∷ es) = true
told_normal (ap_boot ∷ es) = true
told_normal (ap_reboot ∷ es) = true
told_normal (_ ∷ es) = told_normal es

-- A packet number is bit 1 of a flag byte.
abbrev pub IsPacketId : ℕ → Type 0
IsPacketId n = (n ≡ 0) ⊎ (n ≡ 2)

pub record Inv (t : Transport) : Type 0 where
  pub room : length t.output_queue ≤ t.params.max_queue_size
  pub in_flight : t.pending ≡ true → 0 < length t.output_queue
  pub response_id : IsPacketId t.resp_packet_id
  pub notification_id : IsPacketId t.notif_packet_id
  pub flow : is_normal t.mngr_input_state ≡ told_normal t.events

-- The invariant reads only these fields.
pub alike-Inv :
    (t t' : Transport)
    → t'.params ≡ t.params
    → t'.output_queue ≡ t.output_queue
    → t'.pending ≡ t.pending
    → t'.resp_packet_id ≡ t.resp_packet_id
    → t'.notif_packet_id ≡ t.notif_packet_id
    → t'.mngr_input_state ≡ t.mngr_input_state
    → told_normal t'.events ≡ told_normal t.events
    → Inv t
    → Inv t'
alike-Inv t t' params queue pending response notification mngr told v = record {
  room = rw (queue, params) v.room;
  in_flight = λ p. rw queue (v.in_flight (sym pending ∙ p));
  response_id = subst IsPacketId (sym response) v.response_id;
  notification_id = subst IsPacketId (sym notification) v.notification_id;
  flow = ap is_normal mngr ∙ v.flow ∙ sym told;
}

send_command-Inv :
    (cmd : Command) (t : Transport) → Inv t → 0 < length t.output_queue → Inv (send_command cmd t)
unfolding send_command ping_timer start_retry_timer told_normal
send_command-Inv cmd t v some_command = record {
  room = v.room;
  in_flight = λ _. some_command;
  response_id = v.response_id;
  notification_id = v.notification_id;
  flow = v.flow;
}

pub send-Inv : (is_new : Bool) (t : Transport) → Inv t → Inv (send is_new t)
unfolding send
send-Inv is_new t v = if_both Inv _ _ _ (λ _. v) (λ _. front t.output_queue refl)
  where
    front : (queue : List Command) → t.output_queue ≡ queue → Inv (send_front is_new queue t)
    front [] e = unfold send_front in v
    front (cmd ∷ rest) e =
        unfold send_front in
        if_both Inv _ _ _ (λ _. v) (λ _. send_command-Inv cmd t v (omega (arith, ap length e)))

push-Inv :
    (high : Bool) (cmd : Command) (t : Transport)
    → Inv t
    → length t.output_queue < t.params.max_queue_size
    → Inv (push high cmd t)
unfolding push
push-Inv true cmd t v room = record {
  room = omega (arith, room);
  in_flight = λ _. omega arith;
  response_id = v.response_id;
  notification_id = v.notification_id;
  flow = v.flow;
}
push-Inv false cmd t v room = record {
  room = omega (arith, room, length-append t.output_queue (cmd ∷ []));
  in_flight = λ _. omega (arith, length-append t.output_queue (cmd ∷ []));
  response_id = v.response_id;
  notification_id = v.notification_id;
  flow = v.flow;
}

-- A call of the world that the manager does not hear of.
pub quiet-Inv :
    (e : Event) (t : Transport)
    → told_normal (e ∷ t.events) ≡ told_normal t.events
    → Inv t
    → Inv (emit e t)
quiet-Inv e t quiet v = record {
  room = v.room;
  in_flight = v.in_flight;
  response_id = v.response_id;
  notification_id = v.notification_id;
  flow = v.flow ∙ sym quiet;
}

pub pause_manager-Inv : (at : Bool) (t : Transport) → Inv t → Inv (pause_manager at t)
unfolding pause_manager told_normal
pause_manager-Inv false t v = v
pause_manager-Inv true t v = record {
  room = v.room;
  in_flight = v.in_flight;
  response_id = v.response_id;
  notification_id = v.notification_id;
  flow = refl;
}

check_queue_timer-Inv :
    (queue : List Command) (t : Transport) → Inv t → Inv (check_queue_timer queue t)
unfolding check_queue_timer queue_check_timer told_normal
check_queue_timer-Inv [] t v = v
check_queue_timer-Inv (cmd ∷ rest) t v = quiet-Inv _ t refl v

pub send_ap_lost_notif-Inv : (t : Transport) → Inv t → Inv (send_ap_lost_notif t)
unfolding send_ap_lost_notif set_ap_connection_state told_normal
send_ap_lost_notif-Inv t v = record {
  room = v.room;
  in_flight = v.in_flight;
  response_id = v.response_id;
  notification_id = v.notification_id;
  flow = v.flow;
}

insert_command-Inv :
    (high : Bool) (cmd : Command) (t : Transport)
    → Inv t
    → length t.output_queue < t.params.max_queue_size
    → Inv (insert_command high cmd t)
unfolding insert_command
insert_command-Inv high cmd t v room =
    check_queue_timer-Inv _ _
      (pause_manager-Inv _ _ (send-Inv true (push high cmd t) (push-Inv high cmd t v room)))

pub insert_msg-Inv :
    (cmd_id : ℕ) (bytes : List ℕ) (high : Bool) (res : Option ℕ) (err : Option ErrorResponse)
    (synch : Bool) (t : Transport)
    → Inv t
    → Inv (insert_msg cmd_id bytes high res err synch t).1
unfolding insert_msg
insert_msg-Inv cmd_id bytes high res err synch t v =
    if_both Kept (not t.is_ready) (apc_err_state, send_ap_lost_notif t)
      (if full then (apc_err_outbufoverflow, t) else (apc_ok, insert_command high cmd t))
      (λ _. send_ap_lost_notif-Inv t v)
      (λ _.
        if_both Kept full (apc_err_outbufoverflow, t) (apc_ok, insert_command high cmd t) (λ _. v)
          (λ free. insert_command-Inv high cmd t v (omega (arith, v.room, ==-false→ne _ _ free))))
  where
    Kept : ApcError × Transport → Type 0
    Kept r = Inv r.1

    full : Bool
    full = length t.output_queue == t.params.max_queue_size

    cmd : Command
    cmd = record {
      cmd_id = cmd_id;
      payload = bytes;
      is_synch = synch;
      res_callback = res;
      err_res_callback = err;
      timestamp = t.now;
    }
