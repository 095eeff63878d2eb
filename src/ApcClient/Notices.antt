-- ===== src/ApcClient/Notices.antt =====
-- What a connector reports to APInterface/APCClient.cpp, by way of the notification thread.
use Prim.Native.Nat.{bit_and}
use apbridge.Prelude.{
  ℕ, zero, suc, ◌+◌, ◌-◌, ◌*◌, ◌^◌, Bool, true, false, not, ◌&&◌, ◌||◌, List, [], Option, none,
  some, if◌then◌else◌, ◌==◌, get_or, take, drop,
}
use apbridge.ApcProto.{
  ApcError, apc_ok, apc_err_protocol, apc_stop_ver, apc_stop_reconnection, apc_proto_ver,
  apc_hdr_flags_notrack, apc_net_tx, apc_net_tx_pause, apc_net_tx_resume, apc_reset_ap,
  apc_disconnect_ap, apc_get_time, apc_nettx_notxdone, apc_msg_net_tx_size,
}
use apbridge.ApcCache.{ApcCache, CachePkt, confirmed_seq_num, prep_for_get, get_next_packet}
use apbridge.ApcSerializer.{is_ok}
use apbridge.ApcConnector.State.{Connected, StopFlags, stop_fl_disconnect, stop_fl_offline}
use apbridge.ApcConnector.Receive.{from_le32}
use apbridge.NotifThread.{
  Notice, started, connected, disconnected, received, Disconnected, Received,
}
use apbridge.ApcClient.State.{
  Client, World, ClientState, apcclient_state_online, apcclient_state_offline,
  apcclient_state_disconnect, Priority, apintf_low, apintf_med, apintf_hi, apintf_cmd, SendHdr,
  conn_send, conn_stop, null_call, notify_all, told_connected, told_disconnected, told_offline,
  told_online, told_resume, told_pause, told_reset_ap, told_disconnect_ap, told_get_time,
  told_data_rx, emit, tell, apintfid_empty, time_empty, start_timer_p, stop_timer_p,
}
use apbridge.ApcClient.Send.{stop_after}

-- `APC_HDR_FLAGS_NOTRACK` is bit 0 of the flags.
abbrev pub is_tracked : ℕ → Bool
is_tracked flags = bit_and flags apc_hdr_flags_notrack == 0

abbrev pub note_seq : ℕ → ℕ → Client → Client
note_seq flags my_seq c = if is_tracked flags then record c { last_rx_seq_num = my_seq } else c

abbrev pub priority_of : ℕ → Priority
priority_of b =
    if b == 0
    then apintf_low
    else if b == 1
    then apintf_med
    else if b == 2
    then apintf_hi
    else if b == 3
    then apintf_cmd
    else apintf_low

abbrev pub from_le16 : List ℕ → ℕ → ℕ
from_le16 xs n = get_or xs n 0 + get_or xs (n + 1) 0 * 2 ^ 8

-- The fields of `apc_msg_net_tx_s`.
unfoldable pub net_tx_hdr : List ℕ → SendHdr
net_tx_hdr payload = record {
  priority = priority_of (get_or payload 0 0);
  is_tx_done_requested = not (from_le16 payload 1 == apc_nettx_notxdone);
  tx_done_id = from_le16 payload 1;
  is_link_info_specified = bit_and (get_or payload 3 0) 1 == 1;
  fr_id = get_or payload 4 0;
  slot = from_le32 payload 5;
  offset = get_or payload 9 0;
  dst = from_le16 payload 10;
}

-- The switch of `messageReceived`. The serializer lets no shorter `APC_NET_TX` through.
unfoldable pub dispatch : ℕ → List ℕ → Client → Client
dispatch type payload c =
    if type == apc_net_tx
    then emit (told_data_rx (net_tx_hdr payload) (drop apc_msg_net_tx_size payload)) c
    else if type == apc_net_tx_pause
    then emit told_pause c
    else if type == apc_net_tx_resume
    then emit told_resume c
    else if type == apc_reset_ap
    then emit told_reset_ap c
    else if type == apc_disconnect_ap
    then emit told_disconnect_ap c
    else if type == apc_get_time
    then emit told_get_time c
    else c

-- `messageReceived`
unfoldable pub message_received : Received → List ℕ → Client → Client
message_received param payload c =
    let cache = (confirmed_seq_num c.cache param.your_seq false).1 in
    let c' = note_seq param.flags param.my_seq (record c { cache = cache }) in
    if c'.has_input then dispatch param.type payload c' else c'

-- `apcStarted`
unfoldable pub apc_started : ℕ → Client → Client
apc_started id c = record c { connector = some id }

-- A packet of the cache goes through the connector that the client has.
unfoldable pub resend : World → Option ℕ → CachePkt → Client → ApcError × Client
resend w none pkt c = (apc_ok, emit null_call c)
resend w (some id) pkt c = (
  w.sends c.events,
  emit (conn_send id pkt.msg_type 0 pkt.seq_numb (take pkt.size pkt.payload) []) c,
)

-- The loop of `apcConnected`: the packets of the cache until a send fails. `none` means that the
-- fuel ran out.
unfoldable pub replay : World → ℕ → Client → Option (ApcError × Client)
replay w zero c = none
replay w (suc fuel) c =
    let (_, out, cache) = get_next_packet c.cache in
    let c' = record c { cache = cache } in
    elim out [
      | none ↦ some (apc_ok, c')
      | some pkt ↦
          (let rest = replay w fuel (resend w c.connector pkt c').1 in
            let res = (resend w c.connector pkt c').0 in
            if is_ok res then rest else some (res, (resend w c.connector pkt c').1))
    ]

-- Each round brings `m_getNextSeqNum` nearer to `m_lastSentSeqNum`.
abbrev pub replay_fuel : ApcCache → ℕ
replay_fuel cache = suc (suc (cache.last_sent_seq_num - cache.get_next_seq_num))

-- The end of `apcConnected`, without the lock.
unfoldable pub finish_connect : Bool → ℕ → Connected → ApcError × Client → Client
finish_connect is_new id param (apc_ok, c) =
    let c' = record c { state = apcclient_state_online } in
    if is_new then tell (told_connected param.name param.cmd_flags) c' else tell told_online c'
finish_connect is_new id param (res, c) = stop_after apc_stop_reconnection res id c

-- The connection is restored: the packets that the manager has not confirmed are sent again.
unfoldable pub restore : World → Connected → Client → Option (ApcError × Client)
restore w param c =
    let confirmed = (confirmed_seq_num c.cache param.your_seq true).1 in
    let cache = prep_for_get confirmed in replay w (replay_fuel cache) (record c { cache = cache })

-- A manager whose version is wrong, or that does not take up the session, is not accepted.
abbrev pub is_refused : Connected → Client → Bool
is_refused param c =
    param.apc_id == apintfid_empty
    || (not (c.intf_id == apintfid_empty) && not (param.apc_id == c.intf_id))

-- What `apcConnected` notes of a connection that it accepts.
unfoldable pub begun : Connected → Client → Client
begun param c =
    let c1 = record (stop_timer_p c) {
      disconnect_time = time_empty;
      intf_id = param.apc_id;
      net_id = param.net_id;
    } in
    note_seq param.hdr_flags param.my_seq c1

-- `apcConnected`
unfoldable pub apc_connected : World → ℕ → Connected → Client → Option Client
apc_connected w id param c =
    if not (param.ver == apc_proto_ver)
    then some (emit (conn_stop id apc_stop_ver apc_err_protocol stop_fl_disconnect) c)
    else if is_refused param c
    then some (emit (conn_stop id apc_stop_reconnection apc_err_protocol stop_fl_disconnect) c)
    else if c.intf_id == apintfid_empty
    then some (finish_connect true id param (apc_ok, begun param c))
    else elim (restore w param (begun param c)) [
      | none ↦ none
      | some r ↦ some (finish_connect false id param r)
    ]

abbrev pub is_disconnect : StopFlags → Bool
is_disconnect stop_fl_disconnect = true
is_disconnect stop_fl_offline = false

abbrev pub is_immediate : Disconnected → Client → Bool
is_immediate param c =
    is_disconnect param.flags || (c.intf_id == apintfid_empty || c.disconnect_timeout_msec == 0)

abbrev pub is_offline : ClientState → Bool
is_offline apcclient_state_offline = true
is_offline _ = false

unfoldable pub go_offline : World → Client → Client
go_offline w c =
    let c' =
      if c.disconnect_time == time_empty
      then record c { disconnect_time = c.now + c.disconnect_timeout_msec }
      else c in
    (start_timer_p w c').1

-- `apcDisconnected`
unfoldable pub apc_disconnected : World → ℕ → Disconnected → Client → Client
apc_disconnected w id param c =
    let was_offline = is_offline c.state in
    if is_immediate param c
    then (let c1 =
          stop_timer_p (record c { connector = none; state = apcclient_state_disconnect }) in
        tell (told_disconnected param.reason)
          (emit notify_all (record c1 { disconnect_time = time_empty })))
    else (let c1 =
          go_offline w
            (stop_timer_p (record c { connector = none; state = apcclient_state_offline })) in
        let c2 = emit notify_all c1 in
        if was_offline then c2 else tell (told_offline param.reason) c2)

-- A call of the notification thread.
unfoldable pub handle_notice : World → Notice → Client → Option Client
handle_notice w (started id) c = some (apc_started id c)
handle_notice w (connected id param) c = apc_connected w id param c
handle_notice w (disconnected id param) c = some (apc_disconnected w id param c)
handle_notice w (received param payload) c = some (message_received param payload c)
