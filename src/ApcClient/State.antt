-- ===== src/ApcClient/State.antt =====
-- The state of `CAPCClient` of APInterface/APCClient.h, and what it asks of the world. A call of a
-- connector, of boost or of `m_pInput` is an event. What such a call returns is the world's choice,
-- by all the calls made before. A connector is known by a number. The calls of `m_pInput` come last
-- in the methods that make them, with no lock held: what they call back is a call of its own.
-- Times are in milliseconds.
use apbridge.Prelude.{ℕ, Bool, true, false, List, [], ◌∷◌, Option, none, if◌then◌else◌}
use apbridge.ApcProto.{ApcError, StopReason, MsgType, apc_ok, apc_err_async_operation}
use apbridge.ApcCache.{ApcCache}
use apbridge.ApcConnector.State.{StopFlags}

-- `apcclient_state_t`
pub data ClientState : Type 0 where
  apcclient_state_init apcclient_state_online : ClientState
  apcclient_state_offline apcclient_state_disconnect : ClientState

-- `ap_intf_priority_t`
pub data Priority : Type 0 where
  apintf_low apintf_med apintf_hi apintf_cmd : Priority

-- `ap_intf_sendhdr_t`
pub record SendHdr : Type 0 where
  pub priority : Priority
  pub is_tx_done_requested : Bool
  pub tx_done_id : ℕ
  pub is_link_info_specified : Bool
  pub fr_id : ℕ
  pub slot : ℕ
  pub offset : ℕ
  pub dst : ℕ

-- The calls of connectors, of the service thread, of the timer, of the notification thread and of
-- `m_pInput`. `null_call` is a call through a null pointer, at which the program ends.
pub data Event : Type 0 where
  conn_start conn_disconnect : ℕ → Event
  conn_connect : ℕ → ℕ → ℕ → ℕ → ℕ → Event
  conn_send : ℕ → MsgType → ℕ → ℕ → List ℕ → List ℕ → Event
  conn_stop : ℕ → StopReason → ApcError → StopFlags → Event
  null_call ip_connect io_reset io_start io_stop : Event
  start_timer : ℕ → Event
  cancel_timer notify_all start_notif_thread stop_notif_thread : Event
  told_connected : List ℕ → ℕ → Event
  told_disconnected told_offline : StopReason → Event
  told_online told_resume told_pause told_reset_ap told_disconnect_ap told_get_time : Event
  told_data_rx : SendHdr → List ℕ → Event

-- What the calls return. `unset` is what a variable holds that was not written.
pub record World : Type 0 where
  pub resolves : List Event → Option ℕ
  pub starts : List Event → ApcError
  pub connects : List Event → ApcError
  pub sends : List Event → ApcError
  pub io_resets : List Event → Bool
  pub io_starts : List Event → ApcError
  pub timer_starts : List Event → Bool
  pub notif_starts : List Event → ApcError
  pub is_working : List Event → ℕ → Bool
  pub unset : ℕ

-- `CAPCClient`, with the calls made so far, the last one first, and the clock.
pub record Client : Type 0 where
  pub state : ClientState
  pub intf_id : ℕ
  pub connector : Option ℕ
  pub cache : ApcCache
  pub last_rx_seq_num : ℕ
  pub host : List ℕ
  pub port : ℕ
  pub ka_timeout : ℕ
  pub free_buf_timeout : ℕ
  pub intf_name : List ℕ
  pub has_input : Bool
  pub has_reconnect_timer : Bool
  pub disconnect_time : ℕ
  pub reconnection_delay_msec : ℕ
  pub disconnect_timeout_msec : ℕ
  pub current_gps_state : ℕ
  pub net_id : ℕ
  pub events : List Event
  pub now : ℕ

abbrev pub apintfid_empty : ℕ
apintfid_empty = 0

abbrev pub time_empty : ℕ
time_empty = 0

-- `APINTF_GPS_NOLOCK`
abbrev pub apintf_gps_nolock : ℕ
apintf_gps_nolock = 1

abbrev pub emit : Event → Client → Client
emit e c = record c { events = e ∷ c.events }

-- A call of `m_pInput`, if it is set.
abbrev pub tell : Event → Client → Client
tell e c = if c.has_input then emit e c else c

-- The constructor. The cache is built by its own.
unfoldable pub new_client : ApcCache → ℕ → Client
new_client cache now = record {
  state = apcclient_state_init;
  intf_id = apintfid_empty;
  connector = none;
  cache = cache;
  last_rx_seq_num = 0;
  host = [];
  port = 0;
  ka_timeout = 0;
  free_buf_timeout = 0;
  intf_name = [];
  has_input = false;
  has_reconnect_timer = false;
  disconnect_time = time_empty;
  reconnection_delay_msec = 0;
  disconnect_timeout_msec = 0;
  current_gps_state = apintf_gps_nolock;
  net_id = 0;
  events = [];
  now = now;
}

-- `startTimer_p`
unfoldable pub start_timer_p : World → Client → ApcError × Client
start_timer_p w c =
    let c' = record c { has_reconnect_timer = true } in
    if w.timer_starts c.events
    then (apc_ok, emit (start_timer c.reconnection_delay_msec) c')
    else (apc_err_async_operation, c')

-- `stopTimer_p`
unfoldable pub stop_timer_p : Client → Client
stop_timer_p c =
    if c.has_reconnect_timer
    then emit cancel_timer (record c { has_reconnect_timer = false })
    else c
