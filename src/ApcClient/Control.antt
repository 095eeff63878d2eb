-- ===== src/ApcClient/Control.antt =====
-- The start, the stop and the timer of APInterface/APCClient.cpp.
use apbridge.Prelude.{
  ℕ, ◌%◌, ◌^◌, Bool, true, false, not, ◌||◌, List, [], ◌∷◌, Option, none, some, if◌then◌else◌, ltb,
}
use apbridge.ApcProto.{
  ApcError, apc_ok, apc_err_state, apc_err_init, apc_stop_create, apc_stop_reconnection,
  apc_stop_timeout,
}
use apbridge.ApcCache
use apbridge.ApcSerializer.{is_ok}
use apbridge.ApcConnector.State.{StopFlags, stop_fl_disconnect, stop_fl_offline}
use apbridge.NotifThread.{Notice, disconnected}
use apbridge.ApcClient.State.{
  Client, World, ClientState, apcclient_state_init, apcclient_state_disconnect, conn_start,
  conn_disconnect, conn_connect, conn_stop, ip_connect, io_reset, io_start, io_stop, notify_all,
  start_notif_thread, stop_notif_thread, told_disconnected, emit, tell, apintfid_empty, time_empty,
  start_timer_p, stop_timer_p,
}
use apbridge.ApcClient.Notices.{handle_notice}

-- `start_param_t`
pub record StartParam : Type 0 where
  pub host : List ℕ
  pub port : ℕ
  pub ka_timeout : ℕ
  pub free_buf_timeout : ℕ
  pub reconnection_delay_msec : ℕ
  pub disconnect_timeout_msec : ℕ

-- `open`
unfoldable pub open_client : World → Bool → List ℕ → Client → ApcError × Client
open_client w has_input intf_name c = (
  w.notif_starts c.events,
  emit start_notif_thread (record c { has_input = has_input; intf_name = intf_name }),
)

-- `ipConnect_p`
unfoldable pub ip_connect_p : World → Client → Option ℕ × Client
ip_connect_p w c = (w.resolves c.events, emit ip_connect c)

-- The connect message of a connector that was started.
unfoldable pub send_connect : World → ApcError → ℕ → ℕ → ℕ → Client → ApcError × Client
send_connect w res id my_seq your_seq c =
    if is_ok res
    then (
      w.connects c.events,
      emit (conn_connect id c.intf_id my_seq your_seq c.current_gps_state) c,
    )
    else (res, c)

-- A new connector is started and sends its connect message; if that fails, it is stopped.
unfoldable pub launch : World → StopFlags → ℕ → ℕ → ℕ → Client → ApcError × Client
launch w flags id my_seq your_seq c =
    let (res, c') =
      send_connect w (w.starts c.events) id my_seq your_seq (emit (conn_start id) c) in
    (res, if is_ok res then c' else emit (conn_stop id apc_stop_create res flags) c')

-- The fields that `start` sets.
abbrev pub configured : StartParam → Client → Client
configured param c = record c {
  port = param.port;
  host = param.host;
  ka_timeout = param.ka_timeout;
  free_buf_timeout = param.free_buf_timeout;
  reconnection_delay_msec = param.reconnection_delay_msec;
  disconnect_timeout_msec = param.disconnect_timeout_msec;
  state = apcclient_state_init;
  intf_id = apintfid_empty;
  last_rx_seq_num = 0;
  cache = ApcCache.clear c.cache;
}

unfoldable pub start_connector : World → Option ℕ → Client → ApcError × Client
start_connector w none c = (apc_err_init, c)
start_connector w (some id) c = launch w stop_fl_disconnect id 0 0 c

unfoldable pub start_unconnected : World → StartParam → Client → ApcError × Client
start_unconnected w param c =
    let c1 = emit io_reset c in
    if not (w.io_resets c.events)
    then (apc_err_init, c1)
    else (let res = w.io_starts c1.events in
        let c2 = emit io_start c1 in
        if not (is_ok res)
        then (res, c2)
        else (let (pointer, c3) = ip_connect_p w (configured param c2) in
            start_connector w pointer c3))

abbrev pub is_some : Option ℕ → Bool
is_some (some n) = true
is_some none = false

-- `start`
unfoldable pub start : World → StartParam → Client → ApcError × Client
start w param c = if is_some c.connector then (apc_err_state, c) else start_unconnected w param c

-- What the notification thread does while `stop` waits, up to the signal or until the list, which
-- is what comes within a second, ends.
unfoldable pub wait_disconnect : World → List Notice → Client → Option Client
wait_disconnect w [] c = some c
wait_disconnect w (disconnected id param ∷ notices) c = handle_notice w (disconnected id param) c
wait_disconnect w (n ∷ notices) c = elim (handle_notice w n c) [
  | none ↦ none
  | some c' ↦ wait_disconnect w notices c'
]

unfoldable pub disconnect_wait : World → List Notice → Option ℕ → Client → Option Client
disconnect_wait w notices none c = some c
disconnect_wait w notices (some id) c = wait_disconnect w notices (emit (conn_disconnect id) c)

-- `stop`
unfoldable pub stop : World → List Notice → Client → Option Client
stop w notices c =
    let c1 = record (stop_timer_p c) {
      disconnect_time = time_empty;
      state = apcclient_state_disconnect;
    } in
    elim (disconnect_wait w notices c1.connector c1) [
      | none ↦ none
      | some c2 ↦ some (
          let c3 = emit io_stop (record c2 { connector = none }) in
          record c3 { cache = ApcCache.clear c3.cache })
    ]

-- `close`
unfoldable pub close : World → List Notice → Client → Option Client
close w notices c = elim (stop w notices c) [
  | none ↦ none
  | some c' ↦ some (emit stop_notif_thread c')
]

-- `reconnect_p`
unfoldable pub reconnect_with : World → Option ℕ → Client → Client
reconnect_with w none c = (start_timer_p w c).1
reconnect_with w (some id) c =
    (launch w stop_fl_offline id (c.cache.last_sent_seq_num % 2 ^ 32) c.last_rx_seq_num
      (record c { has_reconnect_timer = false })).1

unfoldable pub reconnect_p : World → Client → Client
reconnect_p w c =
    if is_some c.connector
    then c
    else (let (pointer, c') = ip_connect_p w c in reconnect_with w pointer c')

-- `disconnect_p`, and whether the end is to be told.
unfoldable pub disconnect_in : Option ℕ → Client → Bool × Client
disconnect_in (some id) c =
    (false, emit (conn_stop id apc_stop_reconnection apc_ok stop_fl_disconnect) c)
disconnect_in none c =
    let c1 = stop_timer_p (record c { state = apcclient_state_disconnect }) in
    (true, emit notify_all (record c1 { disconnect_time = time_empty }))

unfoldable pub disconnect_p : Client → Bool × Client
disconnect_p c = disconnect_in c.connector c

abbrev pub is_disconnected : ClientState → Bool
is_disconnected apcclient_state_disconnect = true
is_disconnected _ = false

-- `reconnectTimerFun_p`
unfoldable pub reconnect_timer_fun_p : World → Bool → Client → Client
reconnect_timer_fun_p w error c =
    if error || is_disconnected c.state
    then c
    else if ltb c.now c.disconnect_time
    then reconnect_p w c
    else (let (is_send_notif, c') = disconnect_p c in
        if is_send_notif then tell (told_disconnected apc_stop_timeout) c' else c')
