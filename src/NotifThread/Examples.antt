-- ===== src/NotifThread/Examples.antt =====
-- Reports through the queue of APInterface/APCCntrlNotifThread.cpp, with records that are used again.
use apbridge.Prelude.{◌≡◌, refl, true, List, [], ◌∷◌, ◌++◌, length}
use apbridge.ApcProto.{apc_net_tx, apc_stop_read}
use apbridge.ApcConnector.State.{stop_fl_offline}
use apbridge.NotifThread.{
  Notice, started, disconnected, received, Disconnected, Received, NotifThread, empty_notif,
}
use apbridge.NotifThread.Order.{Turn, posted, round, run, reports, run_rounds, run-fifo}

abbrev idle : NotifThread
idle = record {
  apc_notif_q = [];
  free_apc_notif = record empty_notif { payload = 9 ∷ 9 ∷ 9 ∷ 9 ∷ []; payload_size = 4 } ∷ [];
  has_thread = true;
  has_extern = true;
  is_work = true;
}

abbrev message : Received
message = record { apc_id = 5; flags = 0; my_seq = 1; your_seq = 0; type = apc_net_tx }

abbrev lost : Disconnected
lost = record { flags = stop_fl_offline; reason = apc_stop_read; max_alloc_out_pkt = 1 }

abbrev turns : List Turn
turns =
    posted (received message (1 ∷ 2 ∷ []))
    ∷ posted (started 7)
    ∷ round
    ∷ posted (disconnected 7 lost)
    ∷ round
    ∷ []

run-fifo_example :
    (left : List Notice) × ((run turns idle).0 ++ left ≡ reports turns)
    × (run_rounds (length left) (run turns idle).1 ≡ left)
run-fifo_example = run-fifo turns idle refl refl refl
