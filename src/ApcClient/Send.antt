-- ===== src/ApcClient/Send.antt =====
-- What the access point's side sends through APInterface/APCClient.cpp.
use apbridge.Prelude.{ℕ, ◌/◌, ◌%◌, ◌^◌, List, [], ◌∷◌, ◌++◌, Option, none, some, length, take}
use apbridge.ApcProto.{
  ApcError, apc_ok, apc_err_disconnect, apc_err_offline, apc_err_notconnect, apc_err_state,
  apc_err_pktserialization, MsgType, apc_net_rx, apc_net_txdone, apc_time_map, apc_ap_lost,
  apc_net_tx_resume, apc_net_tx_pause, apc_stop_write, StopReason,
}
use apbridge.ApcCache.{add_packet}
use apbridge.ApcConnector.Send.{le32}
use apbridge.ApcConnector.State.{stop_fl_disconnect, stop_fl_offline}
use apbridge.ApcClient.State.{
  Client, World, apcclient_state_init, apcclient_state_online, apcclient_state_offline,
  apcclient_state_disconnect, ClientState, conn_send, conn_stop, emit,
}

-- A size is passed as a `uint16_t`.
abbrev pub cut : List ℕ → List ℕ
cut bytes = take (length bytes % 2 ^ 16) bytes

-- A connector is stopped after a failed send: an error of the serializer ends the session, any
-- other the connection.
unfoldable pub stop_after : StopReason → ApcError → ℕ → Client → Client
stop_after reason apc_ok id c = c
stop_after reason apc_err_pktserialization id c =
    emit (conn_stop id reason apc_err_pktserialization stop_fl_disconnect) c
stop_after reason res id c = emit (conn_stop id reason res stop_fl_offline) c

-- What goes through `pSeqNum`, or what the variable held.
abbrev pub seq_num : World → Option ℕ → ℕ
seq_num w none = w.unset
seq_num w (some n) = n

-- The part of `sendData_p` behind its guards.
unfoldable pub send_through : World → MsgType → List ℕ → List ℕ → ℕ → Client → ApcError × Client
send_through w type p1 p2 id c =
    let (_, out, cache) = add_packet c.cache type p1 p2 in
    let res = w.sends c.events in
    (
      res,
      stop_after apc_stop_write res id
          (emit (conn_send id type 0 (seq_num w out) p1 p2) (record c { cache = cache })),
    )

unfoldable pub send_online :
    World → MsgType → List ℕ → List ℕ → Option ℕ → Client → ApcError × Client
send_online w type p1 p2 none c = (apc_err_state, c)
send_online w type p1 p2 (some id) c = send_through w type p1 p2 id c

unfoldable pub send_in :
    World → MsgType → List ℕ → List ℕ → ClientState → Client → ApcError × Client
send_in w type p1 p2 apcclient_state_disconnect c = (apc_err_disconnect, c)
send_in w type p1 p2 apcclient_state_offline c = (apc_err_offline, c)
send_in w type p1 p2 apcclient_state_init c = (apc_err_notconnect, c)
send_in w type p1 p2 apcclient_state_online c = send_online w type p1 p2 c.connector c

-- `sendData_p`
unfoldable pub send_data_p : World → MsgType → List ℕ → List ℕ → Client → ApcError × Client
send_data_p w type p1 p2 c = send_in w type (cut p1) (cut p2) c.state c

unfoldable pub send_data : World → List ℕ → Client → ApcError × Client
send_data w payload c = send_data_p w apc_net_rx payload [] c

abbrev pub le16 : ℕ → List ℕ
le16 n = n % 2 ^ 8 ∷ n / 2 ^ 8 % 2 ^ 8 ∷ []

unfoldable pub send_tx_done : World → ℕ → ℕ → Client → ApcError × Client
send_tx_done w tx_done_id status c =
    send_data_p w apc_net_txdone (le16 tx_done_id ++ status % 2 ^ 8 ∷ []) [] c

-- `ap_time_map_t`
pub record TimeMap : Type 0 where
  pub time_sec : ℕ
  pub time_usec : ℕ
  pub asn : ℕ
  pub asn_offset : ℕ

abbrev pub le64 : ℕ → List ℕ
le64 n = le32 n ++ le32 (n / 2 ^ 32)

-- The seconds since 1970 are not negative.
unfoldable pub send_time_map : World → TimeMap → Client → ApcError × Client
send_time_map w p c =
    send_data_p w apc_time_map
      (le64 p.time_sec ++ (le32 p.time_usec ++ (le64 p.asn ++ le16 p.asn_offset))) [] c

unfoldable pub send_ap_lost : World → Client → ApcError × Client
send_ap_lost w c = send_data_p w apc_ap_lost [] [] c

unfoldable pub send_resume : World → Client → ApcError × Client
send_resume w c = send_data_p w apc_net_tx_resume [] [] c

unfoldable pub send_pause : World → Client → ApcError × Client
send_pause w c = send_data_p w apc_net_tx_pause [] [] c

-- `sendGpsLock`, which only notes the state.
unfoldable pub send_gps_lock : ℕ → Client → ApcError × Client
send_gps_lock gps c = (apc_ok, record c { current_gps_state = gps })
