-- ===== src/ApcConnector/Send.antt =====
-- The sending side of APInterface/APCConnector.cpp, the end of the connection, and its timers.
use apbridge.Prelude.{
  ℕ, zero, suc, ◌-◌, ◌/◌, ◌%◌, ◌^◌, Bool, true, false, not, ◌&&◌, ◌||◌, List, [], ◌∷◌, ◌++◌, Option,
  none, some, if◌then◌else◌, leb, ◌==◌, length, take, replicate,
}
use apbridge.ApcProto.{
  apc_proto_ver, ApcError, apc_ok, apc_err_notconnect, apc_err_outbufoverflow,
  apc_err_pktserialization, apc_err_async_operation, StopReason, apc_stop_close, apc_stop_timeout,
  apc_stop_write, apc_connect, apc_disconnect, apc_ka, apc_max_msg_size,
}
use apbridge.ApcSerializer.{Message, prep_msg}
use apbridge.ApcConnector.State.{
  Connector, wrote, socket_closed, stopped_tx_timer, stopped_rx_timer, tx_activity, emit, Notif,
  StopFlags, stop_fl_offline, stop_fl_disconnect, Wake, apc_num_out_bufs, free_buf, return_buf,
  get_free_buf,
}

-- `APC_HDR_FLAGS_NOTRACK`
abbrev pub hdr_flags_notrack : ℕ
hdr_flags_notrack = 1

-- `sendData`, when the packet is in its buffer.
unfoldable pub write_out : List ℕ → Connector → ApcError × Connector
write_out bytes c =
    if c.write_works
    then (let c' = emit (wrote bytes) c in
        (apc_ok, record c' { last_reported_seq_num = c'.last_received_seq_num }))
    else (apc_err_async_operation, c)

-- The message that `sendData` makes: it acknowledges what was received.
abbrev pub outgoing : ℕ → ℕ → ℕ → Connector → Message
outgoing type flags my_seq c = record {
  type = type;
  flags = flags;
  my_seq = my_seq;
  your_seq = c.last_received_seq_num;
  payload = [];
}

-- `sendData`, when it has a buffer.
unfoldable pub prepared : ApcError × ℕ × Option (List ℕ) → Connector → ApcError × Connector
prepared (apc_ok, size, some bytes) c = write_out bytes c
prepared _ c = (apc_err_pktserialization, return_buf c)

unfoldable pub send_in : Option ℕ → ℕ → ℕ → ℕ → List ℕ → List ℕ → Connector → ApcError × Connector
send_in none type flags my_seq p1 p2 c = (apc_err_outbufoverflow, c)
send_in (some buf) type flags my_seq p1 p2 c =
    prepared (prep_msg apc_max_msg_size (outgoing type flags my_seq c) p1 p2) c

-- `sendData`; the list is what happens while it waits for a buffer.
unfoldable pub send_data :
    List Wake → ℕ → ℕ → ℕ → List ℕ → List ℕ → Connector → ApcError × Connector
send_data wakes type flags my_seq p1 p2 c =
    if not c.is_working || (not c.is_connected && not (type == apc_connect) && not (type == apc_ka))
    then (apc_err_notconnect, c)
    else (let (buf, wakes', c') = get_free_buf wakes false c in
        send_in buf type flags my_seq p1 p2 c')

-- `send_ka_p`
unfoldable pub send_ka : List Wake → Connector → ApcError × Connector
send_ka wakes c = send_data wakes apc_ka hdr_flags_notrack 0 [] [] c

-- The bytes of a `uint32_t` of the host, and an array of characters that `strncpy` fills from a
-- string and that is closed by a zero.
unfoldable pub le32 : ℕ → List ℕ
le32 v = v % 2 ^ 8 ∷ (v / 2 ^ 8) % 2 ^ 8 ∷ (v / 2 ^ 16) % 2 ^ 8 ∷ (v / 2 ^ 24) % 2 ^ 8 ∷ []

unfoldable pub chars : ℕ → List ℕ → List ℕ
chars n text = take (n - 1) text ++ replicate (n - length (take (n - 1) text)) 0

-- The `apc_msg_connect_s` of `connect`.
unfoldable pub connect_msg : ℕ → ℕ → ℕ → ℕ → Connector → List ℕ
connect_msg intf_id gps_state net_id flags c =
    apc_proto_ver ∷ le32 flags
    ++ (chars 32 c.apc_name ++ (le32 intf_id ++ (gps_state ∷ le32 net_id ++ chars 80 c.sw_version)))

-- `connect`
unfoldable pub connect : List Wake → ℕ → ℕ → ℕ → ℕ → ℕ → ℕ → Connector → ApcError × Connector
connect wakes intf_id my_seq your_seq gps_state net_id flags c =
    let c' = record c {
      intf_id = intf_id;
      last_received_seq_num = your_seq;
      last_reported_seq_num = your_seq;
    } in
    send_data wakes apc_connect 0 my_seq (connect_msg intf_id gps_state net_id flags c') [] c'

abbrev pub if_buffer : Option ℕ → Connector → Connector → Connector
if_buffer none rest c = c
if_buffer (some i) rest c = rest

-- The loop of `stop` that waits for all of the buffers, and so takes them.
unfoldable pub finish_writing : ℕ → List Wake → Connector → Connector
finish_writing zero wakes c = c
finish_writing (suc n) wakes c =
    let (buf, wakes', c') = get_free_buf wakes true c in
    let rest = finish_writing n wakes' c' in if_buffer buf rest c'

-- The end of the two timers, and of the socket.
unfoldable pub stop_tx_timer : Connector → Connector
stop_tx_timer c =
    if c.has_tx_timer then record (emit stopped_tx_timer c) { has_tx_timer = false } else c

unfoldable pub stop_rx_timer : Connector → Connector
stop_rx_timer c =
    if c.has_rx_timer then record (emit stopped_rx_timer c) { has_rx_timer = false } else c

unfoldable pub close_socket : Connector → Connector
close_socket c = if c.socket_open then record (emit socket_closed c) { socket_open = false } else c

module _ (notif : Notif) where
  -- The end of `stop`: the notification.
  unfoldable pub notify_stop : StopReason → StopFlags → Bool → Connector → Connector
  notify_stop reason flags is_send_notif c =
      if is_send_notif && c.has_notif
      then notif.disconnected (if c.force_disconnect then stop_fl_disconnect else flags) reason
          (apc_num_out_bufs - c.min_num_free_out_buf) c
      else c

  -- `stop`
  unfoldable pub stop : List Wake → StopReason → StopFlags → Bool → Bool → Connector → Connector
  stop wakes reason flags is_finish_writing is_send_notif c =
      if not c.is_working
      then c
      else (let c1 = record c { is_working = false } in
          let c2 = if is_finish_writing then finish_writing apc_num_out_bufs wakes c1 else c1 in
          let c3 = close_socket (stop_rx_timer (stop_tx_timer c2)) in
          notify_stop reason flags is_send_notif (record c3 { is_connected = false }))

  -- `disconnect`; the two lists are for the two waits.
  unfoldable pub disconnect : List Wake → List Wake → Connector → Connector
  disconnect wakes wakes' c =
      let c1 = record c { force_disconnect = true } in
      let c2 = (send_data wakes apc_disconnect hdr_flags_notrack 0 [] [] c1).1 in
      stop wakes' apc_stop_close stop_fl_disconnect true true c2

  -- `ka_timeout_rx_p` and `ka_timeout_tx_p`, at a time since the last activity.
  unfoldable pub ka_timeout_rx : ℕ → Connector → Bool × Connector
  ka_timeout_rx elapsed c =
      if leb c.rx_timeout elapsed
      then (false, stop [] apc_stop_timeout stop_fl_offline false true c)
      else (true, c)

  unfoldable pub ka_sent : ApcError × Connector → Bool × Connector
  ka_sent (apc_ok, c) = (true, c)
  ka_sent (_, c) = (false, stop [] apc_stop_write stop_fl_offline false true c)

  unfoldable pub ka_timeout_tx : List Wake → ℕ → Connector → Bool × Connector
  ka_timeout_tx wakes elapsed c =
      if leb c.tx_timeout elapsed then ka_sent (send_ka wakes c) else (true, c)

-- `handle_write_p`
unfoldable pub handle_write : Bool → Connector → Connector
handle_write true c = free_buf c
handle_write false c = free_buf (if c.has_tx_timer then emit tx_activity c else c)
