-- ===== src/ApmTransport/Invariant/Receive.antt =====
-- The receiving side of APInterface/APMTransport.cpp keeps the invariant, if what it calls does.
use Prim.Native.Nat.{bit_xor}
use apbridge.Prelude.{
  ℕ, ◌%◌, ◌^◌, ◌≡◌, inl, inr, refl, ap, Bool, true, false, not, ◌&&◌, ◌||◌, List, [], ◌∷◌, Option,
  none, some, arith, if◌then◌else◌, ltb, ◌==◌, length, get_or, drop, if_both, Bool-cases, ==→eq,
  ==-false→ne, ◌/◌,
}
use apbridge.ApcProto.{ApcError, apc_ok, apc_err_size, apc_err_state}
use apbridge.ApcSerializer.{is_ok}
use apbridge.ApmTransport.State.{
  Transport, Command, AptHdr, ErrorResponse, caller_error, disconnect_error, rc_ok, rc_no_resources,
  notif_ap_receive,
}
use apbridge.ApmTransport.Send.{
  ping_timer, stop_retry_timer, start_nack_retry_timer, is_normal, hdr_length,
}
use apbridge.ApmTransport.Receive.{
  Handlers, send_ack, count_response, nacked, answered, take_off, resume_manager, give_response,
  give_error, give, respond_front, respond_queue, handle_response, take_notification,
  repeat_notification, count_notification, new_notification, handle_notification, match_response,
  handle_msg, data_received, flag,
}
use apbridge.ApmTransport.Invariant.{Inv, IsPacketId, told_normal, alike-Inv, send-Inv}
use apbridge.ApmTransport.Invariant.Join.{ping_timer-Inv}

-- The objects that are called keep a property of the transport.
pub record Keeps (P : Transport → Type 0) (h : Handlers) : Type 0 where
  pub handle_cmd : (id : ℕ) (bytes : List ℕ) (t : Transport) → P t → P (h.handle_cmd id bytes t).1
  pub handle_error : (id rc : ℕ) (t : Transport) → P t → P (h.handle_error id rc t)
  pub respond :
      (callback id : ℕ) (bytes : List ℕ) (t : Transport) → P t → P (h.respond callback id bytes t)
  pub respond_error :
      (callback id rc : ℕ) (t : Transport) → P t → P (h.respond_error callback id rc t)

send_ack-Inv : (id pkt_id rc : ℕ) (t : Transport) → Inv t → Inv (send_ack id pkt_id rc t)
unfolding send_ack told_normal
send_ack-Inv id pkt_id rc t v = alike-Inv t _ refl refl refl refl refl refl refl v

nacked-Inv : (t : Transport) → Inv t → Inv (nacked t)
unfolding nacked start_nack_retry_timer told_normal
nacked-Inv t v = alike-Inv t _ refl refl refl refl refl refl refl v

answered-Inv :
    (cmd : Command) (rest : List Command) (t : Transport)
    → t.output_queue ≡ cmd ∷ rest
    → Inv t
    → Inv (answered cmd rest t)
unfolding answered
answered-Inv cmd rest t e v = record {
  room = omega (arith, ap length e, v.room);
  in_flight = λ p. cc;
  response_id = v.response_id;
  notification_id = v.notification_id;
  flow = v.flow;
}

resume_manager-Inv : (below : Bool) (t : Transport) → Inv t → Inv (resume_manager below t)
unfolding resume_manager told_normal
resume_manager-Inv false t v = v
resume_manager-Inv true t v = record {
  room = v.room;
  in_flight = v.in_flight;
  response_id = v.response_id;
  notification_id = v.notification_id;
  flow = refl;
}

toggled : (n : ℕ) → IsPacketId n → IsPacketId (bit_xor n 2)
toggled n (inl e) = rw e (inr refl)
toggled n (inr e) = rw e (inl refl)

packet_id : (flags : ℕ) → IsPacketId (flag 1 flags)
unfolding flag
packet_id flags = elim (Bool-cases ((flags / 2 ^ 1) % 2 == 0)) [
  | inl e ↦ inl (omega (arith, ==→eq _ _ e))
  | inr e ↦ inr (omega (arith, ==-false→ne _ _ e))
]

module _ (h : Handlers) (keeps : Keeps Inv h) where
  abbrev Kept : ApcError × Transport → Type 0
  Kept r = Inv r.1

  give_response-Inv :
      (callback : Option ℕ) (id : ℕ) (bytes : List ℕ) (t : Transport)
      → Inv t
      → Inv (give_response h callback id bytes t).1
  unfolding give_response
  give_response-Inv none id bytes t v = keeps.handle_cmd id bytes t v
  give_response-Inv (some callback) id bytes t v = keeps.respond callback id bytes t v

  give_error-Inv :
      (callback : Option ErrorResponse) (id rc : ℕ) (t : Transport)
      → Inv t
      → Inv (give_error h callback id rc t)
  unfolding give_error told_normal
  give_error-Inv none id rc t v = keeps.handle_error id rc t v
  give_error-Inv (some (caller_error callback)) id rc t v = keeps.respond_error callback id rc t v
  give_error-Inv (some disconnect_error) id rc t v =
      alike-Inv t _ refl refl refl refl refl refl refl v

  give-Inv :
      (cmd : Command) (hdr : AptHdr) (bytes : List ℕ) (rc : ℕ) (t : Transport)
      → Inv t
      → Inv (give h cmd hdr bytes rc t).1
  unfolding give
  give-Inv cmd hdr bytes rc t v =
      if_both Kept (rc == rc_ok)
        (if ltb 1 (length bytes)
          then give_response h cmd.res_callback hdr.cmd_id bytes t
          else (apc_ok, t))
        (apc_ok, give_error h cmd.err_res_callback hdr.cmd_id rc t)
        (λ _.
          if_both Kept (ltb 1 (length bytes)) (give_response h cmd.res_callback hdr.cmd_id bytes t)
            (apc_ok, t) (λ _. give_response-Inv cmd.res_callback hdr.cmd_id bytes t v) (λ _. v))
        (λ _. give_error-Inv cmd.err_res_callback hdr.cmd_id rc t v)

  respond_front-Inv :
      (cmd : Command) (rest : List Command) (hdr : AptHdr) (bytes : List ℕ) (rc : ℕ) (t : Transport)
      → t.output_queue ≡ cmd ∷ rest
      → Inv t
      → Inv (respond_front h cmd rest hdr bytes rc t).1
  unfolding respond_front take_off
  respond_front-Inv cmd rest hdr bytes rc t e v = send-Inv true _ (
      give-Inv cmd hdr bytes rc _ (
        resume_manager-Inv _ _ (
          if_both Inv (rc == rc_no_resources) (nacked t) (answered cmd rest t) (λ _. nacked-Inv t v)
            (λ _. answered-Inv cmd rest t e v))))

  respond_queue-Inv :
      (queue : List Command) (hdr : AptHdr) (bytes : List ℕ) (rc : ℕ) (t : Transport)
      → t.output_queue ≡ queue
      → Inv t
      → Inv (respond_queue h queue hdr bytes rc t).1
  unfolding respond_queue
  respond_queue-Inv [] hdr bytes rc t e v = v
  respond_queue-Inv (cmd ∷ rest) hdr bytes rc t e v = respond_front-Inv cmd rest hdr bytes rc t e v

  pub handle_response-Inv :
      (hdr : AptHdr) (bytes : List ℕ) (t : Transport)
      → Inv t
      → Inv (handle_response h hdr bytes t).1
  unfolding handle_response count_response stop_retry_timer told_normal
  handle_response-Inv hdr bytes t v =
      respond_queue-Inv t.output_queue hdr bytes (get_or bytes 0 t.beyond) _ refl (record {
        room = v.room;
        in_flight = v.in_flight;
        response_id = toggled t.resp_packet_id v.response_id;
        notification_id = v.notification_id;
        flow = v.flow;
      })

  match_response-Inv :
      (queue : List Command) (hdr : AptHdr) (bytes : List ℕ) (t : Transport)
      → Inv t
      → Inv (match_response h queue hdr bytes t).1
  unfolding match_response
  match_response-Inv [] hdr bytes t v = v
  match_response-Inv (cmd ∷ rest) hdr bytes t v =
      if_both Kept (hdr.cmd_id == cmd.cmd_id && flag 1 hdr.flags == t.resp_packet_id)
        (handle_response h hdr bytes t) (apc_ok, t) (λ _. handle_response-Inv hdr bytes t v)
        (λ _. v)

  noted-Inv :
      (n : ℕ) (t : Transport) → IsPacketId n → Inv t → Inv (record t { notif_packet_id = n })
  noted-Inv n t id v = record {
    room = v.room;
    in_flight = v.in_flight;
    response_id = v.response_id;
    notification_id = id;
    flow = v.flow;
  }

  take_notification-Inv :
      (hdr : AptHdr) (n : ℕ) (bytes : List ℕ) (t : Transport)
      → IsPacketId n
      → Inv t
      → Inv (take_notification h hdr n bytes t).1
  unfolding take_notification
  take_notification-Inv hdr n bytes t id v = send_ack-Inv _ _ _ _ (
      if_both Inv (is_ok out.0) (record out.1 { notif_packet_id = n }) out.1
        (λ _. noted-Inv n out.1 id taken) (λ _. taken))
    where
      out : ApcError × Transport
      out = h.handle_cmd hdr.cmd_id bytes t

      taken : Inv out.1
      taken = keeps.handle_cmd hdr.cmd_id bytes t v

  new_notification-Inv :
      (hdr : AptHdr) (n : ℕ) (bytes : List ℕ) (t : Transport)
      → IsPacketId n
      → Inv t
      → Inv (new_notification h hdr n bytes t).1
  unfolding new_notification
  new_notification-Inv hdr n bytes t id v =
      if_both Kept (not (is_normal t.ap_input_state) && hdr.cmd_id == notif_ap_receive)
        (apc_err_state, send_ack hdr.cmd_id n rc_no_resources t) (take_notification h hdr n bytes t)
        (λ _. send_ack-Inv _ _ _ t v) (λ _. take_notification-Inv hdr n bytes t id v)

  handle_notification-Inv :
      (hdr : AptHdr) (bytes : List ℕ) (t : Transport)
      → Inv t
      → Inv (handle_notification h hdr bytes t).1
  unfolding handle_notification repeat_notification count_notification
  handle_notification-Inv hdr bytes t v =
      if_both Kept (not (flag 1 hdr.flags == t.notif_packet_id) || ltb 0 (flag 3 hdr.flags))
        (new_notification h hdr (flag 1 hdr.flags) bytes (count_notification h (length bytes) t))
        (repeat_notification h hdr (flag 1 hdr.flags) t)
        (λ _.
          new_notification-Inv hdr (flag 1 hdr.flags) bytes _ (packet_id hdr.flags)
            (alike-Inv t _ refl refl refl refl refl refl refl v))
        (λ _. send_ack-Inv _ _ _ _ (alike-Inv t _ refl refl refl refl refl refl refl v))

  pub handle_msg-Inv :
      (hdr : AptHdr) (bytes : List ℕ) (t : Transport) → Inv t → Inv (handle_msg h hdr bytes t).1
  unfolding handle_msg
  handle_msg-Inv hdr bytes t v =
      if_both Kept (flag 0 hdr.flags == 1) (match_response h t.output_queue hdr bytes t)
        (handle_notification h hdr bytes t) (λ _. match_response-Inv t.output_queue hdr bytes t v)
        (λ _. handle_notification-Inv hdr bytes t v)

  -- Whatever packet comes, the invariant holds after it, if the objects that the transport calls
  -- keep it.
  pub data_received-Inv : (bytes : List ℕ) (t : Transport) → Inv t → Inv (data_received h bytes t).1
  unfolding data_received
  data_received-Inv bytes t v =
      if_both Kept (ltb (length bytes) hdr_length) (apc_err_size, ping_timer t)
        (handle_msg h hdr (drop hdr_length bytes) (ping_timer t)) (λ _. ping_timer-Inv t v)
        (λ _. handle_msg-Inv hdr _ _ (ping_timer-Inv t v))
    where
      hdr : AptHdr
      hdr = record {
        cmd_id = get_or bytes 0 0;
        length_field = get_or bytes 1 0;
        flags = get_or bytes 2 0;
      }
