-- ===== src/ApmTransport/Join.antt =====
-- Connection, join and idle handling of APInterface/APMTransport.cpp: pings, the queue check, boot
-- and loss of the access point, and the start of the join.
use apbridge.Prelude.{
  ℕ, ◌-◌, ◌/◌, ◌%◌, ◌^◌, Bool, true, false, not, ◌&&◌, List, [], ◌∷◌, none, some, if◌then◌else◌,
  ltb, ◌==◌, length,
}
use apbridge.ApcProto.{ApcError}
use apbridge.ApmTransport.State.{
  FlowControl, apm_flow_normal, disconnect_error, Command, ap_resume, ap_boot, ap_reboot,
  cancel_queue_timer, Transport, reset_stats, emit, cmd_setparam, cmd_getparam, cmd_join,
  cmd_disconnect, param_macaddr, param_netid,
}
use apbridge.ApmTransport.Send.{
  insert_msg, ping_timer, stop_ping_timer, stop_retry_timer, queue_check_timer, pause_manager,
  is_normal, set_ap_connection_state, set_join_process_state, send_ap_lost_notif,
}

-- `insertMsg` with the defaults of its declaration.
abbrev pub insert : ℕ → List ℕ → Transport → ApcError × Transport
insert cmd_id bytes t = insert_msg cmd_id bytes false none none false t

-- `sendPing`
unfoldable pub send_ping : Transport → ApcError × Transport
send_ping t = insert cmd_getparam (param_macaddr ∷ []) t

-- `handlePingTimeout`; the first argument says that the timer was cancelled.
unfoldable pub handle_ping_timeout : Bool → Transport → Transport
handle_ping_timeout true t = t
handle_ping_timeout false t = ping_timer (if length t.output_queue == 0 then (send_ping t).1 else t)

-- `sendMgrResume`
unfoldable pub send_mgr_resume : Transport → Transport
send_mgr_resume t =
    if is_normal t.mngr_input_state
    then t
    else record (emit ap_resume t) { mngr_input_state = apm_flow_normal }

-- `handleQueueCheckTimeout`
unfoldable pub check_queue : List Command → Transport → Transport
check_queue [] t = send_mgr_resume t
check_queue (cmd ∷ rest) t =
    let diff = ((t.now - cmd.timestamp) / 1000) % 2 ^ 32 in
    queue_check_timer
      (pause_manager (is_normal t.mngr_input_state && ltb t.params.max_packet_age diff) t)

unfoldable pub handle_queue_check_timeout : Bool → Transport → Transport
handle_queue_check_timeout true t = t
handle_queue_check_timeout false t = check_queue t.output_queue t

-- `clearOutputQueue`
unfoldable pub clear_output_queue : Transport → Transport
clear_output_queue t =
    record (stop_ping_timer (stop_retry_timer (record t { output_queue = [] }))) {
      resp_packet_id = 0;
      notif_packet_id = 0;
      pending = false;
      ap_input_state = apm_flow_normal;
      mngr_input_state = apm_flow_normal;
    }

-- `disconnectAP`
unfoldable pub disconnect_ap : Bool → Transport → Transport
disconnect_ap synch t = (insert_msg cmd_disconnect [] true none (some disconnect_error) synch t).1

-- `startJoin_p`. The network id is written in network order.
unfoldable pub start_join : Transport → Transport
start_join t =
    let t1 = (insert cmd_getparam (param_macaddr ∷ []) t).1 in
    let id = t1.net_id % 2 ^ 16 in
    let t2 = (insert cmd_setparam (param_netid ∷ id / 2 ^ 8 ∷ id % 2 ^ 8 ∷ []) t1).1 in
    let t3 = (insert cmd_join [] t2).1 in record t3 { is_running = true }

-- `disableJoin` and `enableJoin`
unfoldable pub disable_join : Transport → Transport
disable_join t = (set_join_process_state false t).1

unfoldable pub enable_join : ℕ → Transport → Transport
enable_join net_id t =
    let (both, t') = set_join_process_state true (record t { net_id = net_id }) in
    if both then start_join t' else t'

-- `handleAPLost`
unfoldable pub handle_ap_lost : Transport → Transport
handle_ap_lost t = send_ap_lost_notif t

-- `handleAPBoot`, once the queue is cleared.
unfoldable pub booted : Transport → Transport
booted t =
    let (both, t') = set_ap_connection_state true (emit ap_boot t) in
    if both then start_join t' else t'

unfoldable pub rebooted : Transport → Transport
rebooted t = record (emit ap_reboot t) { is_running = false }

-- `handleAPBoot`
unfoldable pub handle_ap_boot : Transport → Transport
handle_ap_boot t =
    let t' = clear_output_queue t in if not t'.is_running then booted t' else rebooted t'

-- `stop`, without the log of the statistics.
unfoldable pub stop : Transport → Transport
stop t = emit cancel_queue_timer (stop_ping_timer (stop_retry_timer t))

-- `enableAbort`, `disableAbort`, `setAPMState` and `clearAPMStatistics`
unfoldable pub set_abort : Bool → Transport → Transport
set_abort enabled t = record t { abort_enabled = enabled }

unfoldable pub set_apm_state : FlowControl → Transport → Transport
set_apm_state state t = record t { ap_input_state = state }

unfoldable pub clear_apm_statistics : Transport → Transport
clear_apm_statistics t = record t { stats = reset_stats }
