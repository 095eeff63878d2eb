-- ===== src/ApmTransport/State.antt =====
-- The state of `CAPMTransport` of APInterface/APMTransport.h, and what it does to the world. A call
-- out of the transport is an event; those to an object that may call back are parameters, in
-- ApmTransport/Receive. Times are in microseconds, and the clock stands still within a handler.
use apbridge.Prelude.{ℕ, Bool, true, false, List, [], ◌∷◌, Option}

-- `init_param_t`. `maxMsgSize` is not read.
pub record Params : Type 0 where
  pub max_queue_size : ℕ
  pub high_queue_watermark : ℕ
  pub low_queue_watermark : ℕ
  pub ping_timeout : ℕ
  pub retry_delay : ℕ
  pub retry_timeout : ℕ
  pub max_retries : ℕ
  pub max_packet_age : ℕ

-- `apt_hdr_s`
pub record AptHdr : Type 0 where
  pub cmd_id : ℕ
  pub length_field : ℕ
  pub flags : ℕ

-- `apm_flow_control_t`
pub data FlowControl : Type 0 where
  apm_flow_normal apm_flow_pause : FlowControl

-- A callback that the caller gave, by a name, or `handleDisconnectErrorResponse_p`.
pub data ErrorResponse : Type 0 where
  caller_error : ℕ → ErrorResponse
  disconnect_error : ErrorResponse

-- `APMCommand`
pub record Command : Type 0 where
  pub cmd_id : ℕ
  pub payload : List ℕ
  pub is_synch : Bool
  pub res_callback : Option ℕ
  pub err_res_callback : Option ErrorResponse
  pub timestamp : ℕ

-- The calls of `m_outputHandler`, `m_notifHandler`, of the timers and of the program's stop.
pub data Event : Type 0 where
  handle_data : List ℕ → Event
  close_port open_port restart_port send_reset_ap : Event
  ap_pause ap_resume ap_lost ap_boot ap_reboot : Event
  start_output_timer start_ping_timer start_queue_timer : ℕ → Event
  cancel_output_timer cancel_ping_timer cancel_queue_timer : Event
  stop_program : Event

-- `APMTStats`, without the rates, which are floating point numbers for display.
pub record Stats : Type 0 where
  pub min_rsp_time : ℕ
  pub max_rsp_time : ℕ
  pub last_rsp_time : ℕ
  pub num_resp_recv : ℕ
  pub total_rsp_time : ℕ
  pub num_pkts_sent : ℕ
  pub num_bytes_sent : ℕ
  pub num_pkts_recv : ℕ
  pub num_bytes_recv : ℕ
  pub num_nacks : ℕ
  pub num_retries_sent : ℕ
  pub num_retries_recv : ℕ
  pub max_nack_count : ℕ
  pub min_time_in_queue : ℕ
  pub max_time_in_queue : ℕ
  pub total_time_in_queue : ℕ
  pub num_packets_queued : ℕ
  pub time_in_queue : ℕ

-- `CAPMTransport`. The last four fields are the world: the clock, whether `isReady()` holds, how
-- many of the calls that open the port again are made before one throws, and the byte behind the
-- end of a packet. `events` are the calls made so far, the last one first.
pub record Transport : Type 0 where
  pub params : Params
  pub cur_retry_count : ℕ
  pub cur_nack_count : ℕ
  pub resp_packet_id : ℕ
  pub notif_packet_id : ℕ
  pub pending : Bool
  pub output_queue : List Command
  pub send_time : ℕ
  pub stats : Stats
  pub ap_input_state : FlowControl
  pub mngr_input_state : FlowControl
  pub is_mngr_connected : Bool
  pub is_ap_connected : Bool
  pub is_running : Bool
  pub net_id : ℕ
  pub reconnect_serial : Bool
  pub abort_enabled : Bool
  pub events : List Event
  pub now : ℕ
  pub is_ready : Bool
  pub reopen_calls : ℕ
  pub beyond : ℕ

-- `APMTStats::reset`
unfoldable pub reset_stats : Stats
reset_stats = record {
  min_rsp_time = 10000000;
  max_rsp_time = 0;
  last_rsp_time = 0;
  num_resp_recv = 0;
  total_rsp_time = 0;
  num_pkts_sent = 0;
  num_bytes_sent = 0;
  num_pkts_recv = 0;
  num_bytes_recv = 0;
  num_nacks = 0;
  num_retries_sent = 0;
  num_retries_recv = 0;
  max_nack_count = 0;
  min_time_in_queue = 10000000;
  max_time_in_queue = 0;
  total_time_in_queue = 0;
  num_packets_queued = 0;
  time_in_queue = 0;
}

-- The constructor and `open`. The world is a parameter.
unfoldable pub new_transport : Params → Bool → ℕ → Bool → ℕ → ℕ → Transport
new_transport params reconnect now is_ready reopen_calls beyond = record {
  params = params;
  cur_retry_count = 0;
  cur_nack_count = 0;
  resp_packet_id = 0;
  notif_packet_id = 0;
  pending = false;
  output_queue = [];
  send_time = 0;
  stats = reset_stats;
  ap_input_state = apm_flow_normal;
  mngr_input_state = apm_flow_normal;
  is_mngr_connected = false;
  is_ap_connected = false;
  is_running = false;
  net_id = 0;
  reconnect_serial = reconnect;
  abort_enabled = true;
  events = [];
  now = now;
  is_ready = is_ready;
  reopen_calls = reopen_calls;
  beyond = beyond;
}

abbrev pub emit : Event → Transport → Transport
emit e t = record t { events = e ∷ t.events }

-- The identifiers of 6lowpan/public/dn_api_common.h.
abbrev pub cmd_setparam : ℕ
cmd_setparam = 0x01

abbrev pub cmd_getparam : ℕ
cmd_getparam = 0x02

abbrev pub cmd_join : ℕ
cmd_join = 0x06

abbrev pub cmd_disconnect : ℕ
cmd_disconnect = 0x07

abbrev pub notif_ap_receive : ℕ
notif_ap_receive = 0x27

abbrev pub param_macaddr : ℕ
param_macaddr = 0x01

abbrev pub param_netid : ℕ
param_netid = 0x03

abbrev pub rc_ok : ℕ
rc_ok = 0x00

abbrev pub rc_no_resources : ℕ
rc_no_resources = 0x0c
