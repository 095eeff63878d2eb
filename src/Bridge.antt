-- ===== src/Bridge.antt =====
-- The way of a packet through the components: from the manager's message (APInterface/APCClient.cpp)
-- to the command for the access point (APInterface/APCoupler.cpp), and from the access point's
-- notification (APInterface/APMSerializer.cpp) to the manager's connection.
pub mod Examples
use Prim.Native.Nat.{bit_and}
use apbridge.Prelude.{
  ℕ, zero, suc, ◌+◌, ◌*◌, ◌^◌, ◌<◌, ◌≤◌, ◌≡◌, refl, true, false, List, [], ◌∷◌, Option, none, some,
  arith, if◌then◌else◌, length, drop, get_or, All, ap, ◌∙◌, ◌==◌,
}
use apbridge.ApcProto.{ApcError, apc_net_tx, apc_net_rx, apc_max_msg_size, apc_stop_write}
use apbridge.ApcSerializer.{is_ok}
use apbridge.ApcCache.Ring.{Sent}
use apbridge.ApcCache.Add.{sent_of}
use apbridge.ApcCache.Session.{Reach}
use apbridge.NotifThread.{Received}
use apbridge.ApcConnector.Receive.{from_le32}
use apbridge.ApcClient.State as ManagerSide
use apbridge.ApcClient.State.{
  Client, SendHdr, Event, told_data_rx, conn_send, conn_stop, apcclient_state_online,
}
use apbridge.ApcClient.Send.{send_data}
use apbridge.ApcClient.Notices.{
  message_received, dispatch, note_seq, net_tx_hdr, from_le16, priority_of,
}
use apbridge.ApcClient.Restore.{end_of}
use apbridge.ApcClient.Sending.{send_data_p-Sent}
use apbridge.ApmSerializer.{ApmNotice, ApmSerializer, ap_receive, handle_cmd, handle_other}
use apbridge.ApmTransport.State.{notif_ap_receive}
use apbridge.ApCoupler.State as CouplerSide
use apbridge.ApCoupler.State.{Coupler, insert_msg, client_data, emit}
use apbridge.ApCoupler.Send.{cmd_ap_send}
use apbridge.ApCoupler.Inputs.{data_rx, handle_apm, handle_ap_receive}
use apbridge.ApCoupler.Header.{Wide, ctrl_of, read_ctrl, data_rx-Read}

byte_at : (xs : List ℕ) (n : ℕ) → All (λ b. b < 2 ^ 8) xs → get_or xs n 0 < 2 ^ 8
byte_at [] n v = omega arith
byte_at (x ∷ xs) zero v = v.0
byte_at (x ∷ xs) (suc n) v = byte_at xs n v.1

from_le16-bounds : (xs : List ℕ) (n : ℕ) → All (λ b. b < 2 ^ 8) xs → from_le16 xs n < 2 ^ 16
from_le16-bounds xs n v = omega (arith, byte_at xs n v, byte_at xs (n + 1) v)

from_le32-bounds : (xs : List ℕ) (n : ℕ) → All (λ b. b < 2 ^ 8) xs → from_le32 xs n < 2 ^ 32
unfolding from_le32
from_le32-bounds xs n v =
    omega (arith, byte_at xs n v, byte_at xs (n + 1) v, byte_at xs (n + 2) v, byte_at xs (n + 3) v)

net_tx_hdr-Wide : (payload : List ℕ) → All (λ b. b < 2 ^ 8) payload → Wide (net_tx_hdr payload)
unfolding net_tx_hdr
net_tx_hdr-Wide payload v = record {
  tx_done_id = from_le16-bounds payload 1 v;
  fr_id = byte_at payload 4 v;
  slot = from_le32-bounds payload 5 v;
  offset = byte_at payload 9 v;
  dst = from_le16-bounds payload 10 v;
}

noted_input : (flags seq : ℕ) (cl : Client) → (note_seq flags seq cl).has_input ≡ cl.has_input
noted_input flags seq cl = ground arith

noted_events : (flags seq : ℕ) (cl : Client) → (note_seq flags seq cl).events ≡ cl.events
noted_events flags seq cl = ground arith

dispatch_lem :
    (type : ℕ) (payload : List ℕ) (cl : Client)
    → type ≡ apc_net_tx
    → cl.has_input ≡ true
    → (if cl.has_input then dispatch type payload cl else cl).events
      ≡ told_data_rx (net_tx_hdr payload) (drop 12 payload) ∷ cl.events
unfolding dispatch
dispatch_lem type payload cl net_tx listens = rw (net_tx, listens) refl

told_lem :
    (param : Received) (payload : List ℕ) (cl : Client)
    → param.type ≡ apc_net_tx
    → cl.has_input ≡ true
    → (message_received param payload cl).events
      ≡ told_data_rx (net_tx_hdr payload) (drop 12 payload) ∷ cl.events
unfolding message_received
told_lem param payload cl net_tx listens =
    dispatch_lem param.type payload _ net_tx (noted_input param.flags param.my_seq _ ∙ listens)
    ∙ ap (λ (es : List Event). told_data_rx (net_tx_hdr payload) (drop 12 payload) ∷ es)
        (noted_events param.flags param.my_seq _)

-- A packet of the manager, whose bytes are bytes, comes to a client with an input: the input is told of
-- one packet; and when the coupler, with a transport, is told of it, exactly one command goes to the
-- access point. The fields of its header are those at the places of the message's own header of 12
-- bytes, and behind its 11 bytes come the bytes that stood behind that.
pub message_received-data_rx :
    (w : CouplerSide.World) (param : Received) (payload : List ℕ) (cl : Client) (c : Coupler)
    → param.type ≡ apc_net_tx
    → cl.has_input ≡ true
    → All (λ b. b < 2 ^ 8) payload
    → c.has_transport ≡ true
    → (hdr : SendHdr) × (packet bytes : List ℕ) × ((message_received param payload cl).events
        ≡ told_data_rx hdr packet ∷ cl.events)
      × (data_rx w hdr packet c ≡ emit (insert_msg cmd_ap_send bytes false none none) c)
      × (read_ctrl bytes ≡ record {
        priority = priority_of (get_or payload 0 0);
        link_ctrl = bit_and (get_or payload 3 0) 1 == 1;
        packet_id = from_le16 payload 1;
        frame_id = get_or payload 4 0;
        timeslot = from_le32 payload 5;
        channel = get_or payload 9 0;
        dest = from_le16 payload 10;
      })
      × (drop 11 bytes ≡ drop 12 payload)
unfolding net_tx_hdr
message_received-data_rx w param payload cl c net_tx listens bytes_only set =
    let (bytes, sent, header, rest) =
      data_rx-Read w (net_tx_hdr payload) (drop 12 payload) c (net_tx_hdr-Wide payload bytes_only)
        set in
    (
      net_tx_hdr payload,
      drop 12 payload,
      bytes,
      told_lem param payload cl net_tx listens,
      sent,
      header,
      rest,
    )

-- A packet of the access point comes to the serializer: the coupler, with a client, is told of
-- it and hands its bytes to the client. Online and with a connector, with a cache that only
-- calls have filled, and while fewer than 2^64 packets were sent, the client puts them, if they
-- fit, into its cache, and sends them through the connector as one message; if the send fails
-- the connector is stopped, and the packet stays in the cache.
pub handle_cmd-send_data :
    (w : CouplerSide.World) (v : ManagerSide.World) (beyond : ℕ) (bytes : List ℕ)
    (s : ApmSerializer) (c : Coupler) (id : ℕ) (history : List Sent) (cl : Client)
    → c.has_client ≡ true
    → cl.state ≡ apcclient_state_online
    → cl.connector ≡ some id
    → Reach cl.cache history
    → length bytes ≤ apc_max_msg_size
    → cl.cache.last_sent_seq_num + 1 < 2 ^ 64
    → let sent = sent_of cl.cache apc_net_rx bytes [] in
      let r = send_data v bytes cl in
      let es = conn_send id apc_net_rx 0 sent.number bytes [] ∷ cl.events in
      (n : ApmNotice) × ((handle_cmd beyond notif_ap_receive bytes s).1 ≡ some n)
      × (handle_apm w n c ≡ emit (client_data bytes) c)
      × Reach r.1.cache (sent ∷ history)
      × (r.1.events ≡ (if is_ok r.0 then es else conn_stop id apc_stop_write r.0 (end_of r.0) ∷ es))
unfolding handle_cmd handle_other handle_apm handle_ap_receive send_data
handle_cmd-send_data w v beyond bytes s c id history cl set online at reached fits few =
    let (_, kept, out) =
      send_data_p-Sent v apc_net_rx bytes [] id history cl online at reached (omega (arith, fits))
        few in
    (ap_receive bytes, refl, rw set refl, kept, out)
