-- ===== src/Bridge/Examples.antt =====
-- Packets on their way through the components.
use apbridge.Prelude.{
  ℕ, ◌≡◌, refl, true, false, List, [], ◌∷◌, none, some, arith, if◌then◌else◌, drop,
}
use apbridge.ApcProto.{apc_net_tx, apc_net_rx, apc_stop_write}
use apbridge.ApcSerializer.{is_ok}
use apbridge.ApcCache.Add.{sent_of}
use apbridge.ApcCache.Session.{Reach}
use apbridge.ApcCache.Examples.{three, history, Reach-three, sent_three}
use apbridge.ApcConnector.Receive.{from_le32}
use apbridge.NotifThread.{Received}
use apbridge.ApcClient.State.{SendHdr, apintf_hi, told_data_rx, conn_send, conn_stop}
use apbridge.ApcClient.Send.{send_data}
use apbridge.ApcClient.Notices.{message_received}
use apbridge.ApcClient.Restore.{end_of}
use apbridge.ApcClient.Examples as ManagerRun
use apbridge.ApmSerializer.{ApmNotice, handle_cmd}
use apbridge.ApmTransport.State.{notif_ap_receive}
use apbridge.ApCoupler.State.{insert_msg, client_data, emit, new_coupler}
use apbridge.ApCoupler.Send.{cmd_ap_send}
use apbridge.ApCoupler.Inputs.{data_rx, handle_apm}
use apbridge.ApCoupler.Control.{open_coupler}
use apbridge.ApCoupler.Header.{read_ctrl}
use apbridge.ApCoupler.Examples as CouplerRun
use apbridge.Bridge.{message_received-data_rx, handle_cmd-send_data}

abbrev net_tx : Received
net_tx = record { apc_id = 5; flags = 0; my_seq = 9; your_seq = 1; type = apc_net_tx }

abbrev message : List ℕ
message = 2 ∷ 4 ∷ 3 ∷ 1 ∷ 6 ∷ 7 ∷ 0 ∷ 0 ∷ 0 ∷ 8 ∷ 9 ∷ 0 ∷ 77 ∷ 78 ∷ []

message_received-data_rx_example :
    (hdr : SendHdr) × (packet bytes : List ℕ) × ((message_received net_tx message
        ManagerRun.online).events
      ≡ told_data_rx hdr packet ∷ [])
    × (data_rx CouplerRun.world hdr packet CouplerRun.opened
        ≡ emit (insert_msg cmd_ap_send bytes false none none) CouplerRun.opened)
    × (read_ctrl bytes ≡ record {
      priority = apintf_hi;
      link_ctrl = true;
      packet_id = 772;
      frame_id = 6;
      timeslot = 7;
      channel = 8;
      dest = 9;
    })
    × (drop 11 bytes ≡ 77 ∷ 78 ∷ [])
unfolding open_coupler new_coupler from_le32
message_received-data_rx_example =
    message_received-data_rx CouplerRun.world net_tx message ManagerRun.online CouplerRun.opened
      refl refl (omega arith) refl

handle_cmd-send_data_example :
    let sent = sent_of three apc_net_rx (1 ∷ 2 ∷ []) [] in
    let r = send_data ManagerRun.world (1 ∷ 2 ∷ []) ManagerRun.online in
    let es = conn_send 4 apc_net_rx 0 sent.number (1 ∷ 2 ∷ []) [] ∷ [] in
    (n : ApmNotice) × ((handle_cmd 0 notif_ap_receive (1 ∷ 2 ∷ []) (record { boot_counter = 3 })).1
      ≡ some n)
    × (handle_apm CouplerRun.world n CouplerRun.opened
        ≡ emit (client_data (1 ∷ 2 ∷ [])) CouplerRun.opened)
    × Reach r.1.cache (sent ∷ history)
    × (r.1.events ≡ (if is_ok r.0 then es else conn_stop 4 apc_stop_write r.0 (end_of r.0) ∷ es))
unfolding open_coupler new_coupler
handle_cmd-send_data_example =
    handle_cmd-send_data CouplerRun.world ManagerRun.world 0 (1 ∷ 2 ∷ [])
      (record { boot_counter = 3 }) CouplerRun.opened 4 history ManagerRun.online refl refl refl
      Reach-three (omega arith) (omega (arith, sent_three))
