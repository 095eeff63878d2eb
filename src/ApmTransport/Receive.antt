-- ===== src/ApmTransport/Receive.antt =====
-- The receiving side of APInterface/APMTransport.cpp: responses to commands, and notifications.
use Prim.Native.Nat.{bit_or, bit_xor}
use apbridge.Prelude.{
  ℕ, ◌+◌, ◌-◌, ◌*◌, ◌/◌, ◌%◌, ◌^◌, min, max, Bool, true, false, not, ◌&&◌, ◌||◌, List, [], ◌∷◌,
  ◌++◌, Option, none, some, if◌then◌else◌, ltb, ◌==◌, length, get_or, drop,
}
use apbridge.ApcProto.{
  ApcError, apc_ok, apc_err_size, apc_err_state, apc_stop_connector, apc_err_init,
  apc_err_outbufoverflow, apc_err_unconfirmed_pkt, apc_err_io, apc_err_async_operation,
  apc_err_protocol, apc_err_notfound, apc_err_pktserialization, apc_err_notconnect,
  apc_err_disconnect, apc_err_offline, apc_err_connect,
}
use apbridge.ApmTransport.State.{
  AptHdr, apm_flow_normal, ErrorResponse, caller_error, disconnect_error, Command, handle_data,
  send_reset_ap, ap_resume, Transport, emit, notif_ap_receive, rc_ok, rc_no_resources,
}
use apbridge.ApmTransport.Send.{
  hdr_length, new_hdr, serialize, send, stop_retry_timer, start_nack_retry_timer, ping_timer,
  is_normal,
}
use apbridge.ApcSerializer.{is_ok}

-- `flags & (1 << k)`
unfoldable pub flag : ℕ → ℕ → ℕ
flag k flags = (flags / 2 ^ k) % 2 * 2 ^ k

-- The objects that the transport calls and that may call it back: `m_cmdHandler`, and the
-- callbacks of the callers of `insertMsg`, by their names.
pub record Handlers : Type 0 where
  pub handle_cmd : ℕ → List ℕ → Transport → ApcError × Transport
  pub handle_error : ℕ → ℕ → Transport → Transport
  pub respond : ℕ → ℕ → List ℕ → Transport → Transport
  pub respond_error : ℕ → ℕ → ℕ → Transport → Transport

-- The numbers of `apc_error_t`, which an acknowledgement carries.
unfoldable pub error_code : ApcError → ℕ
error_code apc_ok = 0
error_code apc_stop_connector = 1
error_code apc_err_init = 2
error_code apc_err_size = 3
error_code apc_err_outbufoverflow = 4
error_code apc_err_unconfirmed_pkt = 5
error_code apc_err_io = 6
error_code apc_err_async_operation = 7
error_code apc_err_state = 8
error_code apc_err_protocol = 9
error_code apc_err_notfound = 10
error_code apc_err_pktserialization = 11
error_code apc_err_notconnect = 12
error_code apc_err_disconnect = 13
error_code apc_err_offline = 14
error_code apc_err_connect = 15

-- `sendAck`
unfoldable pub send_ack : ℕ → ℕ → ℕ → Transport → Transport
send_ack notif_id pkt_id rc t =
    emit (handle_data (serialize (new_hdr notif_id 0 (bit_or 1 pkt_id)) ++ rc ∷ [])) (record t {
      stats = record t.stats {
        num_bytes_sent = (t.stats.num_bytes_sent + 1) % 2 ^ 32;
        num_pkts_sent = (t.stats.num_pkts_sent + 1) % 2 ^ 32;
      };
    })

-- The statistics of a response.
unfoldable pub count_response : ℕ → Transport → Transport
count_response size t =
    let time = t.now - t.send_time in
    record t {
      stats = record t.stats {
        num_resp_recv = (t.stats.num_resp_recv + 1) % 2 ^ 32;
        last_rsp_time = time;
        total_rsp_time = (t.stats.total_rsp_time + time) % 2 ^ 64;
        min_rsp_time = min time t.stats.min_rsp_time;
        max_rsp_time = max time t.stats.max_rsp_time;
        num_bytes_recv = (t.stats.num_bytes_recv + size) % 2 ^ 32;
        num_pkts_recv = (t.stats.num_pkts_recv + 1) % 2 ^ 32;
      };
    }

-- The access point has no room: the command stays in the queue and is sent again later.
unfoldable pub nacked : Transport → Transport
nacked t =
    let count = (t.cur_nack_count + 1) % 2 ^ 32 in
    start_nack_retry_timer (record t {
      cur_nack_count = count;
      stats = record t.stats {
        num_nacks = (t.stats.num_nacks + 1) % 2 ^ 32;
        max_nack_count = max count t.stats.max_nack_count;
      };
    })

-- The command is done and leaves the queue.
unfoldable pub answered : Command → List Command → Transport → Transport
answered cmd rest t =
    let time = t.now - cmd.timestamp in
    record t {
      output_queue = rest;
      cur_nack_count = 0;
      pending = false;
      stats = record t.stats {
        time_in_queue = time;
        total_time_in_queue = (t.stats.total_time_in_queue + time) % 2 ^ 64;
        min_time_in_queue = min time t.stats.min_time_in_queue;
        max_time_in_queue = max time t.stats.max_time_in_queue;
        num_pkts_sent = (t.stats.num_pkts_sent + 1) % 2 ^ 32;
      };
    }

unfoldable pub take_off : Bool → Command → List Command → Transport → Transport
take_off nack cmd rest t = if nack then nacked t else answered cmd rest t

-- The low watermark: the manager is resumed.
unfoldable pub resume_manager : Bool → Transport → Transport
resume_manager true t = record (emit ap_resume t) { mngr_input_state = apm_flow_normal }
resume_manager false t = t

module _ (handlers : Handlers) where
  -- The callback of the command, or the serializer.
  unfoldable pub give_response : Option ℕ → ℕ → List ℕ → Transport → ApcError × Transport
  give_response (some callback) cmd_id bytes t = (apc_ok, handlers.respond callback cmd_id bytes t)
  give_response none cmd_id bytes t = handlers.handle_cmd cmd_id bytes t

  unfoldable pub give_error : Option ErrorResponse → ℕ → ℕ → Transport → Transport
  give_error (some (caller_error callback)) cmd_id rc t =
      handlers.respond_error callback cmd_id rc t
  give_error (some disconnect_error) cmd_id rc t = emit send_reset_ap t
  give_error none cmd_id rc t = handlers.handle_error cmd_id rc t

  -- What is done with the result code, once the queue is in order.
  unfoldable pub give : Command → AptHdr → List ℕ → ℕ → Transport → ApcError × Transport
  give cmd hdr bytes rc t =
      if rc == rc_ok
      then (if ltb 1 (length bytes)
          then give_response cmd.res_callback hdr.cmd_id bytes t
          else (apc_ok, t))
      else (apc_ok, give_error cmd.err_res_callback hdr.cmd_id rc t)

  -- `handleResponse`, from the front of the queue on.
  unfoldable pub respond_front :
      Command → List Command → AptHdr → List ℕ → ℕ → Transport → ApcError × Transport
  respond_front cmd rest hdr bytes rc t =
      let nack = rc == rc_no_resources in
      let t1 = take_off nack cmd rest t in
      let below = not nack && ltb (length rest) t.params.low_queue_watermark in
      let t2 = resume_manager (not (is_normal t1.mngr_input_state) && below) t1 in
      let (res, t3) = give cmd hdr bytes rc t2 in (res, send true t3)

  unfoldable pub respond_queue :
      List Command → AptHdr → List ℕ → ℕ → Transport → ApcError × Transport
  respond_queue [] hdr bytes rc t = (apc_err_state, t)
  respond_queue (cmd ∷ rest) hdr bytes rc t = respond_front cmd rest hdr bytes rc t

  -- `handleResponse`. The result code is read whether or not the packet has one.
  unfoldable pub handle_response : AptHdr → List ℕ → Transport → ApcError × Transport
  handle_response hdr bytes t =
      let t1 = count_response (length bytes) (stop_retry_timer t) in
      let t2 = record t1 { resp_packet_id = bit_xor t1.resp_packet_id 2 } in
      respond_queue t2.output_queue hdr bytes (get_or bytes 0 t.beyond) t2

  -- `handleNotification`, for a notification that has not come before.
  unfoldable pub take_notification : AptHdr → ℕ → List ℕ → Transport → ApcError × Transport
  take_notification hdr pkt_id bytes t =
      let (res, t') = handlers.handle_cmd hdr.cmd_id bytes t in
      let t'' = if is_ok res then record t' { notif_packet_id = pkt_id } else t' in
      (res, send_ack hdr.cmd_id pkt_id (error_code res) t'')

  -- `handleNotification`, for one that has come before: it is acknowledged again.
  unfoldable pub repeat_notification : AptHdr → ℕ → Transport → ApcError × Transport
  repeat_notification hdr pkt_id t = (
    apc_ok,
    send_ack hdr.cmd_id pkt_id (error_code apc_ok) (record t {
      stats = record t.stats { num_retries_recv = (t.stats.num_retries_recv + 1) % 2 ^ 32 };
    }),
  )

  unfoldable pub count_notification : ℕ → Transport → Transport
  count_notification size t = record t {
    stats = record t.stats {
      num_bytes_recv = (t.stats.num_bytes_recv + size) % 2 ^ 32;
      num_pkts_recv = (t.stats.num_pkts_recv + 1) % 2 ^ 32;
    };
  }

  -- `handleNotification`, for one that is new: a packet for a manager that is held back is refused.
  unfoldable pub new_notification : AptHdr → ℕ → List ℕ → Transport → ApcError × Transport
  new_notification hdr pkt_id bytes t =
      if not (is_normal t.ap_input_state) && hdr.cmd_id == notif_ap_receive
      then (apc_err_state, send_ack hdr.cmd_id pkt_id rc_no_resources t)
      else take_notification hdr pkt_id bytes t

  -- `handleNotification`
  unfoldable pub handle_notification : AptHdr → List ℕ → Transport → ApcError × Transport
  handle_notification hdr bytes t =
      let pkt_id = flag 1 hdr.flags in
      let is_sync = ltb 0 (flag 3 hdr.flags) in
      if not (pkt_id == t.notif_packet_id) || is_sync
      then new_notification hdr pkt_id bytes (count_notification (length bytes) t)
      else repeat_notification hdr pkt_id t

  -- The response to the command at the front of the queue, or one that is passed over.
  unfoldable pub match_response : List Command → AptHdr → List ℕ → Transport → ApcError × Transport
  match_response [] hdr bytes t = (apc_ok, t)
  match_response (cmd ∷ rest) hdr bytes t =
      if hdr.cmd_id == cmd.cmd_id && flag 1 hdr.flags == t.resp_packet_id
      then handle_response hdr bytes t
      else (apc_ok, t)

  -- `handleMsg`
  unfoldable pub handle_msg : AptHdr → List ℕ → Transport → ApcError × Transport
  handle_msg hdr bytes t =
      if flag 0 hdr.flags == 1
      then match_response t.output_queue hdr bytes t
      else handle_notification hdr bytes t

  -- `dataReceived`
  unfoldable pub data_received : List ℕ → Transport → ApcError × Transport
  data_received bytes t =
      let t1 = ping_timer t in
      if ltb (length bytes) hdr_length
      then (apc_err_size, t1)
      else handle_msg
          (record {
            cmd_id = get_or bytes 0 0;
            length_field = get_or bytes 1 0;
            flags = get_or bytes 2 0;
          })
          (drop hdr_length bytes) t1
