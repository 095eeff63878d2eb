-- ===== src/ApcConnector/Examples.antt =====
-- The theorems on APInterface/APCConnector.cpp at a connection that is up.
use apbridge.Prelude.{
  ℕ, ◌≡◌, refl, Bool, true, false, List, [], ◌∷◌, arith, max, if◌then◌else◌, ◌==◌,
}
use apbridge.ApcProto.{
  ApcError, apc_ok, apc_err_notconnect, apc_stop_connector, apc_net_rx, apc_disconnect,
  apc_max_msg_size, StopReason, apc_stop_read,
}
use apbridge.ApcSerializer.{ApcSerializer, Message, prep_msg, convert}
use apbridge.ApcSerializer.Framing.{read_all}
use apbridge.ApcConnector.State.{
  Connector, Notif, wrote, StopFlags, stop_fl_offline, Wake, write_ended, get_free_buf,
  wait_free_buf, take_free_buf, woken, free_buf, incr_num_free_buf,
}
use apbridge.ApcConnector.Send.{stop, send_data, send_in, prepared, write_out}
use apbridge.ApcConnector.Receive.{message_received}
use apbridge.ApcConnector.Outgoing.{send_data-read_all}
use apbridge.ApcConnector.Incoming.{KeepsSeq, message_received-seq}
use apbridge.ApcConnector.Stop.{Stopped, Quiet, stop-final}

-- One who is told and does nothing.
abbrev idle : Notif
idle = record {
  started = λ c. c;
  connected = λ _ c. c;
  received = λ _ _ _ _ _ c. c;
  disconnected = λ _ _ _ c. c;
}

idle-KeepsSeq : KeepsSeq idle
idle-KeepsSeq = record { received = λ _ _ _ _ _ c. refl }

idle-Quiet : Quiet idle
idle-Quiet = record { disconnected = λ _ _ _ _ v. v }

abbrev up : Connector
up = record {
  apc_name = 0x61 ∷ [];
  sw_version = 0x31 ∷ [];
  peer_name = [];
  has_notif = true;
  intf_id = 1;
  is_working = true;
  is_connected = true;
  force_disconnect = false;
  has_tx_timer = true;
  has_rx_timer = true;
  unconfirmed_inp_pkt = 10;
  tx_timeout = 250;
  rx_timeout = 2000;
  num_free_out_buf = 0;
  min_num_free_out_buf = 0;
  last_received_seq_num = 6;
  last_reported_seq_num = 4;
  cur_free_buf_idx = 1;
  num_rcv_pkt = 6;
  socket_open = true;
  events = [];
  write_works = true;
  read_works = true;
  timer_works = true;
}

abbrev keep : List Message → Message → ApcError × List Message
keep ms m = (apc_ok, m ∷ ms)

abbrev packet : ℕ → Message
packet n = record { type = apc_net_rx; flags = 0; my_seq = n; your_seq = 3; payload = 1 ∷ 2 ∷ [] }

-- A buffer is free only when a write has ended.
send_data-read_all_example :
    (let c' = (send_data (write_ended ∷ []) apc_net_rx 0 9 (1 ∷ []) (2 ∷ []) up).1 in
      (bytes : List ℕ) × (c'.events ≡ wrote bytes ∷ up.events)
      × (c'.last_reported_seq_num ≡ up.last_received_seq_num)
      × (let (res, s') = keep [] (record {
        type = apc_net_rx;
        flags = 0;
        my_seq = 9;
        your_seq = up.last_received_seq_num;
        payload = 1 ∷ 2 ∷ [];
      }) in
          read_all keep apc_max_msg_size [] [] bytes ≡ (res, [], s')))
send_data-read_all_example =
    send_data-read_all keep [] (write_ended ∷ []) apc_net_rx 0 9 (1 ∷ []) (2 ∷ []) up
      (send_data (write_ended ∷ []) apc_net_rx 0 9 (1 ∷ []) (2 ∷ []) up).1 sent (omega arith)
      (omega arith)
  where
    sent :
        send_data (write_ended ∷ []) apc_net_rx 0 9 (1 ∷ []) (2 ∷ []) up
        ≡ (apc_ok, (send_data (write_ended ∷ []) apc_net_rx 0 9 (1 ∷ []) (2 ∷ []) up).1)
    sent =
        unfold send_data send_in prepared write_out get_free_buf wait_free_buf take_free_buf woken
          free_buf incr_num_free_buf prep_msg convert in
        refl

message_received-seq_example :
    (let out = message_received idle up (packet 7) in
      (out.1.last_received_seq_num ≡ max 7 up.last_received_seq_num)
      × (out.0 ≡ (if (packet 7).type == apc_disconnect then apc_stop_connector else apc_ok)))
message_received-seq_example =
    message_received-seq idle up (packet 7) idle-KeepsSeq refl (omega arith)

stop-final_example :
    (let c' = stop idle [] apc_stop_read stop_fl_offline true true up in
      Stopped c'
      × ((wakes' : List Wake) (reason' : StopReason) (flags' : StopFlags) (finish' send' : Bool)
          → stop idle wakes' reason' flags' finish' send' c' ≡ c')
      × ((wakes' : List Wake) (type hdr_flags my_seq : ℕ) (p1 p2 : List ℕ)
          → send_data wakes' type hdr_flags my_seq p1 p2 c' ≡ (apc_err_notconnect, c')))
stop-final_example = stop-final idle idle-Quiet [] apc_stop_read stop_fl_offline true true up refl
