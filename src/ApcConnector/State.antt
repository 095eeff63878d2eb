-- ===== src/ApcConnector/State.antt =====
-- The state of `CAPCConnector` of APInterface/APCConnector.h, and its output buffers. Only the
-- number and the index of the buffers are kept: what is in one goes to the socket at once. The
-- statistics of delays are left out.
use apbridge.Prelude.{
  ℕ, ◌+◌, ◌-◌, ◌%◌, min, Bool, false, not, ◌&&◌, ◌||◌, List, [], ◌∷◌, Option, none, some,
  if◌then◌else◌, ltb, ◌==◌,
}
use apbridge.ApcProto.{StopReason}

-- The buffers, of which there are `APC_NUM_OUT_BUFS`.
abbrev pub apc_num_out_bufs : ℕ
apc_num_out_bufs = 2

-- `stopflags_t`
pub data StopFlags : Type 0 where
  stop_fl_offline stop_fl_disconnect : StopFlags

-- `param_connected_s`
pub record Connected : Type 0 where
  pub ver : ℕ
  pub net_id : ℕ
  pub apc_id : ℕ
  pub cmd_flags : ℕ
  pub hdr_flags : ℕ
  pub my_seq : ℕ
  pub your_seq : ℕ
  pub name : List ℕ
  pub version : List ℕ

-- The calls of the socket and of the two keep alive timers.
pub data Event : Type 0 where
  wrote : List ℕ → Event
  read_started socket_closed : Event
  started_tx_timer started_rx_timer stopped_tx_timer stopped_rx_timer : Event
  tx_activity rx_activity : Event

-- `CAPCConnector`. The last three fields are the world: whether `async_write`, `async_read_some` and
-- the start of a timer go through. `events` are the calls made so far, the last one first.
pub record Connector : Type 0 where
  pub apc_name : List ℕ
  pub sw_version : List ℕ
  pub peer_name : List ℕ
  pub has_notif : Bool
  pub intf_id : ℕ
  pub is_working : Bool
  pub is_connected : Bool
  pub force_disconnect : Bool
  pub has_tx_timer : Bool
  pub has_rx_timer : Bool
  pub unconfirmed_inp_pkt : ℕ
  pub tx_timeout : ℕ
  pub rx_timeout : ℕ
  pub num_free_out_buf : ℕ
  pub min_num_free_out_buf : ℕ
  pub last_received_seq_num : ℕ
  pub last_reported_seq_num : ℕ
  pub cur_free_buf_idx : ℕ
  pub num_rcv_pkt : ℕ
  pub socket_open : Bool
  pub events : List Event
  pub write_works : Bool
  pub read_works : Bool
  pub timer_works : Bool

abbrev pub emit : Event → Connector → Connector
emit e c = record c { events = e ∷ c.events }

-- The object that is told of what happens, `IAPCConnectorNotif`. It may call the connector.
pub record Notif : Type 0 where
  pub started : Connector → Connector
  pub connected : Connected → Connector → Connector
  pub received : ℕ → ℕ → ℕ → ℕ → List ℕ → Connector → Connector
  pub disconnected : StopFlags → StopReason → ℕ → Connector → Connector

-- `incrNumFreeBuf_p`, which only warns of a buffer too many.
unfoldable pub incr_num_free_buf : Connector → Connector
incr_num_free_buf c =
    if ltb c.num_free_out_buf apc_num_out_bufs
    then record c { num_free_out_buf = c.num_free_out_buf + 1 }
    else c

-- `freeBuf_p`; the signal wakes a thread that waits for a buffer.
unfoldable pub free_buf : Connector → Connector
free_buf c = incr_num_free_buf c

-- `returnBuf_p`: the buffer that was taken last is given back.
unfoldable pub return_buf : Connector → Connector
return_buf c =
    let c' = incr_num_free_buf c in
    record c' {
      cur_free_buf_idx =
          (if c'.cur_free_buf_idx == 0 then apc_num_out_bufs else c'.cur_free_buf_idx) - 1;
    }

-- What other threads do while one waits for a buffer: writes come to an end, or the connector is
-- stopped.
pub data Wake : Type 0 where
  write_ended work_ended : Wake

unfoldable pub woken : Wake → Connector → Connector
woken write_ended c = free_buf c
woken work_ended c = record c { is_working = false }

-- The loop of `getFreeBuf_p`: the list of what wakes it ends when the time is up.
unfoldable pub wait_free_buf : List Wake → Bool → Connector → List Wake × Connector
wait_free_buf [] allow c = ([], c)
wait_free_buf (wake ∷ wakes) allow c =
    let rest = wait_free_buf wakes allow (woken wake c) in
    if c.num_free_out_buf == 0 && (c.is_working || allow) then rest else (wake ∷ wakes, c)

-- The rest of `getFreeBuf_p`: the index of the buffer, if there is one.
unfoldable pub take_free_buf : Bool → Connector → Option ℕ × Connector
take_free_buf allow c =
    if c.num_free_out_buf == 0 || (not c.is_working && not allow) then (none, c) else (
      some c.cur_free_buf_idx,
      record c {
        num_free_out_buf = c.num_free_out_buf - 1;
        min_num_free_out_buf = min (c.num_free_out_buf - 1) c.min_num_free_out_buf;
        cur_free_buf_idx = (c.cur_free_buf_idx + 1) % apc_num_out_bufs;
      },
    )

-- `getFreeBuf_p`
unfoldable pub get_free_buf : List Wake → Bool → Connector → Option ℕ × List Wake × Connector
get_free_buf wakes allow c =
    let (wakes', c') = wait_free_buf wakes allow c in
    let (buf, c'') = take_free_buf allow c' in (buf, wakes', c'')
