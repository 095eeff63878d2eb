-- ===== src/ApcProto.antt =====
-- The protocol between manager and access point bridge: APInterface/APCProto.h,
-- APInterface/public/APCError.h, and the sizes of APInterface/APCConnector.h and common/common.h.
use apbridge.Prelude.{ℕ, ◌+◌}

-- `apc_error_t`
pub data ApcError : Type 0 where
  apc_ok apc_stop_connector apc_err_init apc_err_size apc_err_outbufoverflow : ApcError
  apc_err_unconfirmed_pkt apc_err_io apc_err_async_operation apc_err_state : ApcError
  apc_err_protocol apc_err_notfound apc_err_pktserialization apc_err_notconnect : ApcError
  apc_err_disconnect apc_err_offline apc_err_connect : ApcError

-- `apc_stop_reason_t`
pub data StopReason : Type 0 where
  apc_stop_na apc_disconnect_msg apc_stop_timeout apc_stop_create apc_stop_read : StopReason
  apc_stop_write apc_stop_close apc_stop_delayed apc_stop_connect_not_found : StopReason
  apc_stop_connect_new_port apc_stop_connect_same_port apc_stop_pktparse apc_stop_ver : StopReason
  apc_stop_maxapc apc_stop_reconnection : StopReason

-- `apc_msg_type_t` is a byte on the wire, and any byte may arrive.
abbrev pub MsgType : Type 0
MsgType = ℕ

abbrev pub apc_connect : MsgType
apc_connect = 1

abbrev pub apc_disconnect : MsgType
apc_disconnect = 2

abbrev pub apc_net_tx : MsgType
apc_net_tx = 3

abbrev pub apc_net_rx : MsgType
apc_net_rx = 4

abbrev pub apc_net_txdone : MsgType
apc_net_txdone = 5

abbrev pub apc_net_tx_pause : MsgType
apc_net_tx_pause = 6

abbrev pub apc_net_tx_resume : MsgType
apc_net_tx_resume = 7

abbrev pub apc_reset_ap : MsgType
apc_reset_ap = 8

abbrev pub apc_ka : MsgType
apc_ka = 9

abbrev pub apc_ap_lost : MsgType
apc_ap_lost = 10

abbrev pub apc_get_time : MsgType
apc_get_time = 11

abbrev pub apc_time_map : MsgType
apc_time_map = 12

abbrev pub apc_gps_lock : MsgType
apc_gps_lock = 13

abbrev pub apc_disconnect_ap : MsgType
apc_disconnect_ap = 14

-- `APC_COOKIE` is four times this byte.
abbrev pub apc_cookie_byte : ℕ
apc_cookie_byte = 0x7E

abbrev pub apc_proto_ver : ℕ
apc_proto_ver = 1

-- `APC_HDR_FLAGS_NOTRACK`
abbrev pub apc_hdr_flags_notrack : ℕ
apc_hdr_flags_notrack = 1

abbrev pub apc_nettx_notxdone : ℕ
apc_nettx_notxdone = 0xFFFF

-- `sizeof` of the packed structures.
abbrev pub apc_hdr_size : ℕ
apc_hdr_size = 4 + 1 + 4 + 4 + 1 + 2

abbrev pub apc_msg_net_tx_size : ℕ
apc_msg_net_tx_size = 1 + 2 + 1 + 1 + 4 + 1 + 2

abbrev pub apc_msg_net_txdone_size : ℕ
apc_msg_net_txdone_size = 2 + 1

abbrev pub apc_msg_timemap_size : ℕ
apc_msg_timemap_size = 8 + 4 + 8 + 2

abbrev pub apc_msg_connect_size : ℕ
apc_msg_connect_size = 1 + 4 + 32 + 4 + 1 + 4 + 80

abbrev pub max_net_pkt_size : ℕ
max_net_pkt_size = 1024

-- `MAX_APC_HDR_SIZE` and `APC_MAX_MSG_SIZE`
abbrev pub max_apc_hdr_size : ℕ
max_apc_hdr_size = apc_hdr_size + apc_msg_net_tx_size

abbrev pub apc_max_msg_size : ℕ
apc_max_msg_size = max_net_pkt_size + max_apc_hdr_size
