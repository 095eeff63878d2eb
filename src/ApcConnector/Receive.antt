-- ===== src/ApcConnector/Receive.antt =====
-- The receiving side of APInterface/APCConnector.cpp. The input side of the serializer stands beside
-- the connector.
use apbridge.Prelude.{
  ℕ, ◌+◌, ◌-◌, ◌*◌, ◌%◌, ◌^◌, true, false, not, ◌&&◌, List, [], ◌∷◌, Option, none, some,
  if◌then◌else◌, ltb, ◌==◌, get_or, take, drop,
}
use apbridge.ApcProto.{
  ApcError, apc_ok, apc_err_protocol, apc_err_async_operation, apc_stop_connector,
  apc_disconnect_msg, apc_stop_pktparse, apc_stop_read, apc_connect, apc_disconnect, apc_ka,
}
use apbridge.ApcSerializer.{ApcSerializer, Message, data_received, is_ok}
use apbridge.ApcConnector.State.{
  Connector, Connected, read_started, started_tx_timer, started_rx_timer, rx_activity, emit, Notif,
  stop_fl_offline, stop_fl_disconnect, Wake,
}
use apbridge.ApcConnector.Send.{stop, send_ka}

unfoldable pub from_le32 : List ℕ → ℕ → ℕ
from_le32 xs n =
    get_or xs n 0
    + get_or xs (n + 1) 0 * 2 ^ 8
    + get_or xs (n + 2) 0 * 2 ^ 16
    + get_or xs (n + 3) 0 * 2 ^ 24

-- A string of characters up to its zero.
unfoldable pub text : List ℕ → List ℕ
text [] = []
text (b ∷ bs) = let rest = text bs in if b == 0 then [] else b ∷ rest

-- The parameters of `apcConnected`, from the fields of `apc_msg_connect_s`. The two arrays are cut
-- at 31 and 79 characters.
unfoldable pub connected_param : Message → Connected
connected_param m = record {
  ver = get_or m.payload 0 0;
  net_id = from_le32 m.payload 42;
  apc_id = from_le32 m.payload 37;
  cmd_flags = from_le32 m.payload 1;
  hdr_flags = m.flags;
  my_seq = m.my_seq;
  your_seq = m.your_seq;
  name = text (take 31 (drop 5 m.payload));
  version = text (take 79 (drop 46 m.payload));
}

-- The last lines of `messageReceived`.
unfoldable pub note_seq : ℕ → Connector → Connector
note_seq my_seq c =
    if ltb c.last_received_seq_num my_seq then record c { last_received_seq_num = my_seq } else c

module _ (notif : Notif) where
  -- `messageReceived`, for a connect: without its timer the sequence number is not noted.
  unfoldable pub receive_connect : Message → Connector → ApcError × Connector
  receive_connect m c =
      let c1 = record c { is_connected = true } in
      let c2 =
        if c1.has_notif
        then notif.connected (connected_param m) (record c1 { peer_name = text (drop 5 m.payload) })
        else c1 in
      if c2.has_tx_timer
      then (if c2.timer_works
          then (apc_ok, note_seq m.my_seq (emit started_tx_timer c2))
          else (apc_err_async_operation, c2))
      else (apc_ok, note_seq m.my_seq c2)

  unfoldable pub receive_other : Message → Connector → ApcError × Connector
  receive_other m c =
      if m.type == apc_disconnect
      then (apc_stop_connector, note_seq m.my_seq c)
      else if c.has_notif
      then (
        apc_ok,
        note_seq m.my_seq (notif.received m.flags m.my_seq m.your_seq m.type m.payload c),
      )
      else (apc_ok, note_seq m.my_seq c)

  -- `messageReceived`
  unfoldable pub message_received : Connector → Message → ApcError × Connector
  message_received c m =
      if not c.is_connected
        && not (m.type == apc_connect)
        && not (m.type == apc_disconnect)
        && not (m.type == apc_ka)
      then (apc_err_protocol, c)
      else (let c' = record c { num_rcv_pkt = (c.num_rcv_pkt + 1) % 2 ^ 32 } in
          if m.type == apc_connect then receive_connect m c' else receive_other m c')

  -- `async_read_p`
  unfoldable pub async_read : Connector → ApcError × Connector
  async_read c =
      if c.read_works then (apc_ok, emit read_started c) else (apc_err_async_operation, c)

  unfoldable pub stop_unless_ok : ApcError × Connector → Connector
  stop_unless_ok (apc_ok, c) = c
  stop_unless_ok (_, c) = stop notif [] apc_stop_read stop_fl_offline false true c

  -- The end of `handle_read_p`: the next read, and a keep alive if much was not acknowledged.
  unfoldable pub read_on : List Wake → Connector → Connector
  read_on wakes c =
      let (res, c') = async_read c in
      let unreported = (c'.last_received_seq_num + 2 ^ 32 - c'.last_reported_seq_num) % 2 ^ 32 in
      stop_unless_ok
        (if is_ok res && ltb c'.unconfirmed_inp_pkt unreported then send_ka wakes c' else (res, c'))

  unfoldable pub after_data : List Wake → ApcError → Connector → Connector
  after_data wakes apc_ok c =
      if not c.is_working
      then c
      else read_on wakes (if c.has_rx_timer then emit rx_activity c else c)
  after_data wakes apc_stop_connector c =
      stop notif [] apc_disconnect_msg stop_fl_disconnect false true c
  after_data wakes _ c = stop notif [] apc_stop_pktparse stop_fl_offline false true c

  unfoldable pub after_read :
      List Wake → Option (ApcError × ApcSerializer × Connector) → Option (ApcSerializer × Connector)
  after_read wakes none = none
  after_read wakes (some (res, z, c)) = some (z, after_data wakes res c)

  -- `handle_read_p`: an error of the socket, or the bytes that came.
  unfoldable pub handle_read :
      List Wake → Option (List ℕ) → ApcSerializer → Connector → Option (ApcSerializer × Connector)
  handle_read wakes none z c = some (z, stop notif [] apc_stop_read stop_fl_offline false true c)
  handle_read wakes (some []) z c = some (z, read_on wakes c)
  handle_read wakes (some (b ∷ bs)) z c =
      after_read wakes (data_received message_received z c (b ∷ bs))

  -- `start`
  unfoldable pub start : Connector → ApcError × Connector
  start c =
      let c1 = if c.has_notif then notif.started c else c in
      let c2 = record c1 { is_working = true } in
      if c2.has_rx_timer
      then (if c2.timer_works
          then async_read (emit started_rx_timer c2)
          else (apc_err_async_operation, c2))
      else async_read c2
