-- ===== src/ApCoupler/State.antt =====
-- The state of `CAPCoupler` of APInterface/APCoupler.h, and what it asks of the world. A call of the
-- transport, of the manager client, of the GPS, of the watchdog or of a timer is noted; what such a
-- call returns is the world's choice, by all the calls made before. What such a call calls back is an
-- input of its own. `now` is the steady clock in milliseconds, `sys_now` the system clock in
-- microseconds since 1970.
use apbridge.Prelude.{ℕ, Bool, false, List, [], ◌∷◌, Option, if◌then◌else◌}
use apbridge.ApcProto.{ApcError}
use apbridge.ApmTransport.State.{FlowControl}

-- `EAPClockSource`
pub data ApClockSource : Type 0 where
  internal network pps mngrset : ApClockSource

-- `gps_status_t`
pub data GpsStatus : Type 0 where
  gps_st_no_device gps_st_no_sync gps_st_sync gps_st_conn_lost : GpsStatus

-- The callbacks of `insertMsg`: those of the coupler, or one that a caller of `sendCmd` gave.
pub data Callback : Type 0 where
  handle_set_clk_src_response handle_set_clk_src_error_response : Callback
  given : ℕ → Callback

-- The calls that the coupler makes. `null_call` is a call through a null pointer, at which the program
-- ends.
pub data Call : Type 0 where
  insert_msg : ℕ → List ℕ → Bool → Option Callback → Option Callback → Call
  set_apm_state : FlowControl → Call
  enable_join : ℕ → Call
  disconnect_ap : Bool → Call
  disable_join hw_reset_ap disable_abort enable_abort stop_transport : Call
  start_client stop_client client_ap_lost client_pause client_resume : Call
  client_data : List ℕ → Call
  client_tx_done : ℕ → Bool → Call
  client_time_map : ℕ → ℕ → ℕ → ℕ → Call
  client_gps_lock : ℕ → Call
  start_gps stop_gps wd_disconnect stop_node null_call sleep_retry : Call
  start_leap_timer : ℕ → Call

-- What the calls return; the time of day and the leap seconds are those of the system's clock.
pub record World : Type 0 where
  pub inserts : List Call → ApcError
  pub is_port_ready : List Call → Bool
  pub last_rsp_time : List Call → ℕ
  pub client_starts : List Call → ApcError
  pub is_connected : List Call → Bool
  pub net_id : List Call → ℕ
  pub leap_secs : ℕ → ℕ
  pub is_leap_day : ℕ → Bool
  pub cur_utc : ℕ → ℕ × ℕ × ℕ

-- `SAPMInfo`, without the name of the serial port, which is not used.
pub record ApmInfo : Type 0 where
  pub mac : List ℕ
  pub sw_version : List ℕ
  pub app_version : List ℕ
  pub clksource : ℕ
  pub network_id : ℕ
  pub ap_state : ℕ

-- `CAPCoupler`, with the calls made so far, the last one first, and the clocks. The start parameters
-- of the client and of the GPS are handed on unread, but for `m_gpsd_conn`.
pub record Coupler : Type 0 where
  pub ap_info : ApmInfo
  pub has_transport : Bool
  pub has_client : Bool
  pub has_gps : Bool
  pub ap_connected : Bool
  pub hw_reset_timeout_msec : ℕ
  pub disconnect_timeout_short_msec : ℕ
  pub disconnect_timeout_long_msec : ℕ
  pub ap_clk_source : ApClockSource
  pub gpsd_conn : Bool
  pub cur_gps_status : GpsStatus
  pub satellites_visible : ℕ
  pub satellites_used : ℕ
  pub events : ℕ
  pub has_thread : Bool
  pub blackout_start : ℕ
  pub has_wd_client : Bool
  pub is_int_clk_src : Bool
  pub calls : List Call
  pub now : ℕ
  pub sys_now : ℕ

abbrev pub systime_empty : ℕ
systime_empty = 0

abbrev pub clksource_none : ℕ
clksource_none = 0xFF

-- The constructor. Nothing is known of the access point.
unfoldable pub new_coupler : ℕ → ℕ → Coupler
new_coupler now sys_now = record {
  ap_info = record {
    mac = [];
    sw_version = [];
    app_version = [];
    clksource = 0;
    network_id = 0;
    ap_state = 0;
  };
  has_transport = false;
  has_client = false;
  has_gps = false;
  ap_connected = false;
  hw_reset_timeout_msec = 0;
  disconnect_timeout_short_msec = 0;
  disconnect_timeout_long_msec = 0;
  ap_clk_source = internal;
  gpsd_conn = false;
  cur_gps_status = gps_st_no_device;
  satellites_visible = 0;
  satellites_used = 0;
  events = 0;
  has_thread = false;
  blackout_start = systime_empty;
  has_wd_client = false;
  is_int_clk_src = false;
  calls = [];
  now = now;
  sys_now = sys_now;
}

abbrev pub emit : Call → Coupler → Coupler
emit e c = record c { calls = e ∷ c.calls }

-- A call of an object, if its pointer is set.
abbrev pub emit_if : Bool → Call → Coupler → Coupler
emit_if is_set e c = if is_set then emit e c else c

-- A call of an object whose pointer is not looked at.
abbrev pub emit_through : Bool → Call → Coupler → Coupler
emit_through is_set e c = emit (if is_set then e else null_call) c

-- `init_param_t`, with pointers of the transport and of the client that are set.
pub record InitParam : Type 0 where
  pub has_gps : Bool
  pub gpsd_conn : Bool
  pub reset_boot_timeout_msec : ℕ
  pub disconnect_short_boot_timeout_msec : ℕ
  pub disconnect_long_boot_timeout_msec : ℕ
  pub ap_clk_source : ApClockSource
