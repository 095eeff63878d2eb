-- ===== src/ApmTransport/Send.antt =====
-- The sending side of APInterface/APMTransport.cpp: the header, the queue, `send` and the timer
-- that repeats a command. `m_outputHandler` is set, as the bridge sets it.
use Prim.Native.Nat.{bit_or}
use apbridge.Prelude.{
  ℕ, zero, suc, ◌+◌, ◌/◌, ◌%◌, ◌^◌, Bool, true, false, not, ◌&&◌, ◌||◌, List, [], ◌∷◌, ◌++◌, Option,
  if◌then◌else◌, ltb, leb, ◌==◌, length, get_or,
}
use apbridge.ApcProto.{ApcError, apc_ok, apc_err_state, apc_err_outbufoverflow}
use apbridge.ApmTransport.State.{
  AptHdr, FlowControl, apm_flow_normal, apm_flow_pause, ErrorResponse, Command, Event, handle_data,
  close_port, open_port, restart_port, send_reset_ap, ap_pause, ap_lost, start_output_timer,
  start_ping_timer, start_queue_timer, cancel_output_timer, cancel_ping_timer, stop_program,
  Transport, emit,
}

-- `apt_hdr_s::LENGTH`, and its constructor, which casts the length to a byte.
abbrev pub hdr_length : ℕ
hdr_length = 3

unfoldable pub new_hdr : ℕ → ℕ → ℕ → AptHdr
new_hdr id l f = record { cmd_id = id; length_field = (l % 2 ^ 16) % 2 ^ 8; flags = f }

-- `apt_hdr_s::serialize`: the bytes that are written.
unfoldable pub serialize : AptHdr → List ℕ
serialize h = h.cmd_id ∷ h.length_field % 2 ^ 8 ∷ h.flags ∷ []

-- `apt_hdr_s::parse`, with its result.
unfoldable pub parse : AptHdr → List ℕ → ℕ × AptHdr
parse h input =
    if leb 3 (length input)
    then (
      hdr_length,
      record {
        cmd_id = get_or input 0 0;
        length_field = get_or input 1 0;
        flags = get_or input 2 0;
      },
    )
    else (0, h)

unfoldable pub start_retry_timer : Transport → Transport
start_retry_timer t = emit (start_output_timer t.params.retry_timeout) t

unfoldable pub stop_retry_timer : Transport → Transport
stop_retry_timer t = emit cancel_output_timer (record t { cur_retry_count = 0 })

unfoldable pub start_nack_retry_timer : Transport → Transport
start_nack_retry_timer t = emit (start_output_timer t.params.retry_delay) t

unfoldable pub ping_timer : Transport → Transport
ping_timer t = emit (start_ping_timer t.params.ping_timeout) t

unfoldable pub stop_ping_timer : Transport → Transport
stop_ping_timer t = emit cancel_ping_timer t

unfoldable pub queue_check_timer : Transport → Transport
queue_check_timer t = emit (start_queue_timer (t.params.max_packet_age / 2)) t

-- The bytes of a command on the wire, as `sendCommand` makes them.
unfoldable pub wire : ℕ → Command → List ℕ
wire resp_packet_id cmd =
    let f = if cmd.is_synch then bit_or resp_packet_id 8 else resp_packet_id in
    serialize (new_hdr cmd.cmd_id (length cmd.payload) f) ++ cmd.payload

-- `sendCommand`
unfoldable pub send_command : Command → Transport → Transport
send_command cmd t = ping_timer (
    start_retry_timer (
      emit (handle_data (wire t.resp_packet_id cmd)) (record t {
        send_time = t.now;
        stats = record t.stats {
          num_bytes_sent = (t.stats.num_bytes_sent + length cmd.payload) % 2 ^ 32;
        };
        pending = true;
      })))

-- What `send` does with the queue, when the output handler is ready.
unfoldable pub send_front : Bool → List Command → Transport → Transport
send_front is_new [] t = t
send_front is_new (cmd ∷ rest) t =
    if (is_new && t.pending) || (not is_new && not t.pending) then t else send_command cmd t

-- `send`
unfoldable pub send : Bool → Transport → Transport
send is_new t = if not t.is_ready then t else send_front is_new t.output_queue t

-- `setAPConnectionState_p` and `setJoinProcessState_p`
unfoldable pub set_ap_connection_state : Bool → Transport → Bool × Transport
set_ap_connection_state connected t =
    (t.is_mngr_connected && connected, record t { is_ap_connected = connected })

unfoldable pub set_join_process_state : Bool → Transport → Bool × Transport
set_join_process_state connected t =
    (connected && t.is_ap_connected, record t { is_mngr_connected = connected })

-- `sendAPLostNotif_p`
unfoldable pub send_ap_lost_notif : Transport → Transport
send_ap_lost_notif t =
    let (both, t') = set_ap_connection_state false (emit ap_lost t) in
    record t' { is_running = false }

-- The part of `insertMsg` that holds the lock.
unfoldable pub push : Bool → Command → Transport → Transport
push high cmd t = record t {
  stats = record t.stats { num_packets_queued = (t.stats.num_packets_queued + 1) % 2 ^ 32 };
  output_queue = if high then cmd ∷ t.output_queue else t.output_queue ++ cmd ∷ [];
}

-- The high watermark: the manager is paused.
unfoldable pub pause_manager : Bool → Transport → Transport
pause_manager true t = record (emit ap_pause t) { mngr_input_state = apm_flow_pause }
pause_manager false t = t

abbrev pub is_normal : FlowControl → Bool
is_normal apm_flow_normal = true
is_normal apm_flow_pause = false

unfoldable pub check_queue_timer : List Command → Transport → Transport
check_queue_timer [] t = t
check_queue_timer (cmd ∷ rest) t = queue_check_timer t

-- `insertMsg`, for a command that there is room for.
unfoldable pub insert_command : Bool → Command → Transport → Transport
insert_command high cmd t =
    let t1 = push high cmd t in
    let at_high = leb t.params.high_queue_watermark (length t1.output_queue) in
    let t2 = send true t1 in
    let t3 = pause_manager (is_normal t2.mngr_input_state && at_high) t2 in
    check_queue_timer t3.output_queue t3

-- `insertMsg`
unfoldable pub insert_msg :
    ℕ → List ℕ → Bool → Option ℕ → Option ErrorResponse → Bool → Transport → ApcError × Transport
insert_msg cmd_id bytes high res_callback err_callback is_synch t =
    if not t.is_ready
    then (apc_err_state, send_ap_lost_notif t)
    else if length t.output_queue == t.params.max_queue_size
    then (apc_err_outbufoverflow, t)
    else (
      apc_ok,
      insert_command high
          (record {
            cmd_id = cmd_id;
            payload = bytes;
            is_synch = is_synch;
            res_callback = res_callback;
            err_res_callback = err_callback;
            timestamp = t.now;
          })
          t,
    )

-- `hwResetAP`
unfoldable pub hw_reset_ap : Transport → Transport
hw_reset_ap t = emit send_reset_ap (record t { is_running = false })

-- The port is closed and opened again; a call that throws is the last one.
unfoldable pub reopen_events : ℕ → List Event → List Event
reopen_events zero es = es
reopen_events (suc zero) es = close_port ∷ es
reopen_events (suc (suc zero)) es = open_port ∷ close_port ∷ es
reopen_events (suc (suc (suc n))) es = restart_port ∷ open_port ∷ close_port ∷ es

unfoldable pub reopen : Transport → Transport
reopen t = record t { events = reopen_events t.reopen_calls t.events }

-- `sendRetry`
unfoldable pub send_retry : Transport → Transport
send_retry t = send false t

-- `handleRetryTimeout` while there are repeats left: the command is sent again, at the second
-- repeat and later over a port that was opened again, if that is asked for.
unfoldable pub repeat_command : Transport → Transport
repeat_command t =
    let t1 = if t.reconnect_serial && ltb 0 t.cur_retry_count then reopen t else t in
    let t2 = send_retry t1 in
    start_retry_timer (record t2 {
      stats = record t2.stats { num_retries_sent = (t2.stats.num_retries_sent + 1) % 2 ^ 32 };
      cur_retry_count = (t2.cur_retry_count + 1) % 2 ^ 32;
    })

-- The access point is lost and reset.
unfoldable pub abort : Transport → Transport
abort t =
    let t1 = hw_reset_ap (send_ap_lost_notif t) in
    if t1.reconnect_serial then emit stop_program t1 else t1

-- `handleRetryTimeout`; the argument says that the timer was cancelled.
unfoldable pub handle_retry_timeout : Bool → Transport → Transport
handle_retry_timeout true t = t
handle_retry_timeout false t =
    if ltb t.cur_retry_count t.params.max_retries
    then repeat_command t
    else (let t1 = stop_ping_timer t in if t1.abort_enabled then abort t1 else t1)
