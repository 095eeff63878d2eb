-- ===== src/ApcClient/Examples.antt =====
-- The theorems on APInterface/APCClient.cpp at a client that has sent three packets, with a cache for
-- two.
use apbridge.Prelude.{◌≡◌, refl, true, false, List, [], ◌∷◌, some, arith}
use apbridge.ApcProto.{ApcError, apc_ok, apc_err_io, apc_proto_ver, apc_stop_read}
use apbridge.ApcConnector.State.{Connected, stop_fl_offline}
use apbridge.ApcCache.{clear}
use apbridge.ApcCache.Examples.{three}
use apbridge.NotifThread.{disconnected, Disconnected}
use apbridge.ApcClient.State.{World, Client, Event, apcclient_state_online, apcclient_state_offline}
use apbridge.ApcClient.Control.{stop}
use apbridge.ApcClient.Offline.{stop-offline}

-- The first send after an empty log succeeds, and no other.
abbrev first_only : List Event → ApcError
first_only [] = apc_ok
first_only (e ∷ es) = apc_err_io

abbrev pub world : World
world = record {
  resolves = λ _. some 4;
  starts = λ _. apc_ok;
  connects = λ _. apc_ok;
  sends = first_only;
  io_resets = λ _. true;
  io_starts = λ _. apc_ok;
  timer_starts = λ _. true;
  notif_starts = λ _. apc_ok;
  is_working = λ _ _. true;
  unset = 99;
}

abbrev offline : Client
offline = record {
  state = apcclient_state_offline;
  intf_id = 5;
  connector = some 4;
  cache = three;
  last_rx_seq_num = 8;
  host = [];
  port = 9100;
  ka_timeout = 1000;
  free_buf_timeout = 100;
  intf_name = [];
  has_input = true;
  has_reconnect_timer = false;
  disconnect_time = 70;
  reconnection_delay_msec = 10;
  disconnect_timeout_msec = 60;
  current_gps_state = 1;
  net_id = 1;
  events = [];
  now = 30;
}

abbrev pub online : Client
online = record offline { state = apcclient_state_online; disconnect_time = 0 }

abbrev param : Connected
param = record {
  ver = apc_proto_ver;
  net_id = 1;
  apc_id = 5;
  cmd_flags = 0;
  hdr_flags = 0;
  my_seq = 9;
  your_seq = 1;
  name = [];
  version = [];
}

abbrev lost : Disconnected
lost = record { flags = stop_fl_offline; reason = apc_stop_read; max_alloc_out_pkt = 1 }

stop-offline_example :
    (c' : Client) × (stop world (disconnected 4 lost ∷ []) online ≡ some c')
    × (c'.state ≡ apcclient_state_offline)
    × (c'.has_reconnect_timer ≡ true)
    × (c'.cache ≡ clear three)
stop-offline_example =
    stop-offline world 4 lost [] online refl refl (λ e. omega (arith, e)) (λ e. omega (arith, e))
