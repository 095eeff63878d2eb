-- ===== src/ApcConnector/Stop.antt =====
-- The end of a connection in APInterface/APCConnector.cpp.
use apbridge.Prelude.{
  ℕ, zero, suc, ◌+◌, ◌-◌, ltb, ◌≡◌, refl, Bool, true, false, not, ◌&&◌, ◌||◌, List, [], ◌∷◌, Option,
  none, some, if◌then◌else◌, ◌==◌, Bool-cases, if_both, inl, inr,
}
use apbridge.ApcProto.{apc_err_notconnect, StopReason}
use apbridge.ApcConnector.State.{
  Connector, Notif, StopFlags, stop_fl_disconnect, Wake, emit, apc_num_out_bufs, stopped_tx_timer,
  stopped_rx_timer, socket_closed, wait_free_buf, take_free_buf, get_free_buf, woken, write_ended,
  work_ended, free_buf, incr_num_free_buf,
}
use apbridge.ApcConnector.Send.{
  if_buffer, stop, notify_stop, stop_tx_timer, stop_rx_timer, close_socket, finish_writing,
  send_data,
}

-- Nothing runs any more.
pub record Stopped (c : Connector) : Type 0 where
  pub working : c.is_working ≡ false
  pub connected : c.is_connected ≡ false
  pub tx_timer : c.has_tx_timer ≡ false
  pub rx_timer : c.has_rx_timer ≡ false
  pub socket : c.socket_open ≡ false

-- An object that is told of the end leaves it at that.
pub record Quiet (notif : Notif) : Type 0 where
  pub disconnected :
      (flags : StopFlags) (reason : StopReason) (max_alloc : ℕ) (c : Connector)
      → Stopped c
      → Stopped (notif.disconnected flags reason max_alloc c)

stop_tx_timer-lem :
    (c : Connector)
    → c.is_working ≡ false
    → ((stop_tx_timer c).is_working ≡ false) × ((stop_tx_timer c).has_tx_timer ≡ false)
unfolding stop_tx_timer
stop_tx_timer-lem c idle =
    if_both (λ (c' : Connector). (c'.is_working ≡ false) × (c'.has_tx_timer ≡ false)) c.has_tx_timer
      (record (emit stopped_tx_timer c) { has_tx_timer = false }) c (λ _. (idle, refl))
      (λ off. (idle, off))

stop_rx_timer-lem :
    (c : Connector)
    → c.is_working ≡ false
    → c.has_tx_timer ≡ false
    → (let c' = stop_rx_timer c in
        (c'.is_working ≡ false) × (c'.has_tx_timer ≡ false) × (c'.has_rx_timer ≡ false))
unfolding stop_rx_timer
stop_rx_timer-lem c idle tx =
    if_both
      (λ (c' : Connector).
        (c'.is_working ≡ false) × (c'.has_tx_timer ≡ false) × (c'.has_rx_timer ≡ false))
      c.has_rx_timer (record (emit stopped_rx_timer c) { has_rx_timer = false }) c
      (λ _. (idle, tx, refl)) (λ off. (idle, tx, off))

-- With the socket closed nothing is left.
close_socket-Stopped :
    (c : Connector)
    → c.is_working ≡ false
    → c.has_tx_timer ≡ false
    → c.has_rx_timer ≡ false
    → Stopped (record (close_socket c) { is_connected = false })
unfolding close_socket
close_socket-Stopped c idle tx rx =
    if_both (λ (c' : Connector). Stopped (record c' { is_connected = false })) c.socket_open
      (record (emit socket_closed c) { socket_open = false }) c
      (λ _. record {
        working = idle;
        connected = refl;
        tx_timer = tx;
        rx_timer = rx;
        socket = refl;
      })
      (λ off. record {
        working = idle;
        connected = refl;
        tx_timer = tx;
        rx_timer = rx;
        socket = off;
      })

-- Waiting for the buffers does not start anything.
idle_wait :
    (wakes : List Wake) (allow : Bool) (c : Connector)
    → c.is_working ≡ false
    → (wait_free_buf wakes allow c).1.is_working ≡ false
unfolding wait_free_buf woken free_buf incr_num_free_buf
idle_wait [] allow c idle = idle
idle_wait (wake ∷ wakes) allow c idle =
    if_both (λ (r : List Wake × Connector). r.1.is_working ≡ false)
      (c.num_free_out_buf == 0 && (c.is_working || allow))
      (wait_free_buf wakes allow (woken wake c)) (wake ∷ wakes, c)
      (λ _. idle_wait wakes allow (woken wake c) (idle_woken wake)) (λ _. idle)
  where
    idle_woken : (wake : Wake) → (woken wake c).is_working ≡ false
    idle_woken work_ended = refl
    idle_woken write_ended =
        if_both (λ (c' : Connector). c'.is_working ≡ false)
          (ltb c.num_free_out_buf apc_num_out_bufs)
          (record c { num_free_out_buf = c.num_free_out_buf + 1 }) c (λ _. idle) (λ _. idle)

idle_take :
    (allow : Bool) (c : Connector)
    → c.is_working ≡ false
    → (take_free_buf allow c).1.is_working ≡ false
unfolding take_free_buf
idle_take allow c idle =
    elim (Bool-cases (c.num_free_out_buf == 0 || (not c.is_working && not allow))) [
      | inl e ↦ simp e idle
      | inr e ↦ simp e idle
    ]

idle_finish :
    (n : ℕ) (wakes : List Wake) (c : Connector)
    → c.is_working ≡ false
    → (finish_writing n wakes c).is_working ≡ false
unfolding finish_writing get_free_buf
idle_finish zero wakes c idle = idle
idle_finish (suc n) wakes c idle =
    either (take_free_buf true (wait_free_buf wakes true c).1).0 _ _
      (idle_finish n (wait_free_buf wakes true c).0
        (take_free_buf true (wait_free_buf wakes true c).1).1
        (idle_take true _ (idle_wait wakes true c idle)))
      (idle_take true _ (idle_wait wakes true c idle))
  where
    either :
        (buf : Option ℕ) (rest c' : Connector)
        → rest.is_working ≡ false
        → c'.is_working ≡ false
        → (if_buffer buf rest c').is_working ≡ false
    either none rest c' p q = q
    either (some i) rest c' p q = p

module _ (notif : Notif) (quiet : Quiet notif) where
  notify_stop-Stopped :
      (reason : StopReason) (flags : StopFlags) (is_send_notif : Bool) (c : Connector)
      → Stopped c
      → Stopped (notify_stop notif reason flags is_send_notif c)
  unfolding notify_stop
  notify_stop-Stopped reason flags is_send_notif c v =
      if_both Stopped (is_send_notif && c.has_notif)
        (notif.disconnected (if c.force_disconnect then stop_fl_disconnect else flags) reason
          (apc_num_out_bufs - c.min_num_free_out_buf) c)
        c (λ _. quiet.disconnected _ reason _ c v) (λ _. v)

  closed :
      (c : Connector)
      → c.is_working ≡ false
      → Stopped (record (close_socket (stop_rx_timer (stop_tx_timer c))) { is_connected = false })
  closed c idle =
      let (w, tx) = stop_tx_timer-lem c idle in
      let (w', tx', rx) = stop_rx_timer-lem (stop_tx_timer c) w tx in
      close_socket-Stopped _ w' tx' rx

  stop-Stopped :
      (wakes : List Wake) (reason : StopReason) (flags : StopFlags) (finish is_send_notif : Bool)
      (c : Connector)
      → c.is_working ≡ true
      → Stopped (stop notif wakes reason flags finish is_send_notif c)
  unfolding stop
  stop-Stopped wakes reason flags finish is_send_notif c works =
      if_both Stopped (not c.is_working) c
        (notify_stop notif reason flags is_send_notif
          (record (close_socket (stop_rx_timer (stop_tx_timer c2))) { is_connected = false }))
        (λ idle. absurd (never (rw works at idle)))
        (λ _. notify_stop-Stopped reason flags is_send_notif _ (closed c2 idle_now))
    where
      c1 : Connector
      c1 = record c { is_working = false }

      c2 : Connector
      c2 = if finish then finish_writing apc_num_out_bufs wakes c1 else c1

      idle_now : c2.is_working ≡ false
      idle_now =
          if_both (λ (c' : Connector). c'.is_working ≡ false) finish
            (finish_writing apc_num_out_bufs wakes c1) c1
            (λ _. idle_finish apc_num_out_bufs wakes c1 refl) (λ _. refl)

      never : false ≡ true → ⊥
      never f = cc

  -- `stop` ends a connection that works, for any reason, with or without waiting for the buffers and
  -- with or without the notification: afterwards neither the connector nor a timer nor the socket
  -- runs, a second `stop` changes nothing and tells nobody, and `sendData` refuses every message
  -- without a change. Who is told of the end leaves it at that.
  pub stop-final :
      (wakes : List Wake) (reason : StopReason) (flags : StopFlags) (finish is_send_notif : Bool)
      (c : Connector)
      → c.is_working ≡ true
      → (let c' = stop notif wakes reason flags finish is_send_notif c in
          Stopped c'
          × ((wakes' : List Wake) (reason' : StopReason) (flags' : StopFlags) (finish' send' : Bool)
              → stop notif wakes' reason' flags' finish' send' c' ≡ c')
          × ((wakes' : List Wake) (type hdr_flags my_seq : ℕ) (p1 p2 : List ℕ)
              → send_data wakes' type hdr_flags my_seq p1 p2 c' ≡ (apc_err_notconnect, c')))
  stop-final wakes reason flags finish is_send_notif c works =
      let v = stop-Stopped wakes reason flags finish is_send_notif c works in
      (
        v,
        λ wakes' reason' flags' finish' send'. unfold stop in simp v.working refl,
        λ wakes' type hdr_flags my_seq p1 p2. unfold send_data in simp v.working refl,
      )
