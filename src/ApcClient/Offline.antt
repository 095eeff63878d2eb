-- ===== src/ApcClient/Offline.antt =====
-- The end of a connection, the deadline and the stop in APInterface/APCClient.cpp.
use apbridge.Prelude.{
  ℕ, ◌+◌, ◌≤◌, ◌≡◌, ◌≢◌, refl, ap, ◌∙◌, true, false, not, ◌&&◌, List, ◌∷◌, Option, none, some,
  arith, if◌then◌else◌, ◌==◌, le→ltb-false, Bool-cases, inl, inr,
}
use apbridge.ApcProto.{apc_stop_timeout}
use apbridge.ApcCache.{clear}
use apbridge.ApcConnector.State.{stop_fl_offline}
use apbridge.NotifThread.{Notice, disconnected, Disconnected}
use apbridge.ApcClient.State.{
  World, Client, ClientState, apcclient_state_offline, apcclient_state_disconnect,
  told_disconnected, told_offline, notify_all, start_timer, io_stop, conn_disconnect, time_empty,
  apintfid_empty, start_timer_p, stop_timer_p, emit, tell,
}
use apbridge.ApcClient.Notices.{
  apc_disconnected, go_offline, is_immediate, is_offline, handle_notice,
}
use apbridge.ApcClient.Control.{
  stop, disconnect_wait, wait_disconnect, reconnect_timer_fun_p, disconnect_p, disconnect_in,
  is_disconnected,
}

-- A client behind `stopTimer_p`, by its fields; the state and the connector have no part in it.
abbrev ended_timer : ClientState → Client → Client
ended_timer s c = record c {
  connector = none;
  state = s;
  has_reconnect_timer = false;
  events = (stop_timer_p c).events;
}

stop_timer_p_lem :
    (s : ClientState) (c : Client)
    → stop_timer_p (record c { connector = none; state = s }) ≡ ended_timer s c
unfolding stop_timer_p
stop_timer_p_lem s c = ground arith

-- What the end of a connection makes of a client.
pub record Ended (w : World) (param : Disconnected) (c c' : Client) : Type 0 where
  pub connector : c'.connector ≡ none
  pub cache : c'.cache ≡ c.cache
  pub session : c'.intf_id ≡ c.intf_id
  pub for_good :
      is_immediate param c ≡ true
      → (c'.state ≡ apcclient_state_disconnect)
        × (c'.has_reconnect_timer ≡ false)
        × (c'.disconnect_time ≡ time_empty)
        × (c'.events ≡ (
            if c.has_input
            then told_disconnected param.reason ∷ notify_all ∷ (stop_timer_p c).events
            else notify_all ∷ (stop_timer_p c).events))
  pub for_now :
      is_immediate param c ≡ false
      → (c'.state ≡ apcclient_state_offline)
        × (c'.has_reconnect_timer ≡ true)
        × (c'.disconnect_time ≡ (
            if c.disconnect_time == time_empty
            then c.now + c.disconnect_timeout_msec
            else c.disconnect_time))
        × ((w.timer_starts (stop_timer_p c).events ≡ true)
            → c'.events ≡ (
                if not (is_offline c.state) && c.has_input
                then told_offline param.reason
                  ∷ notify_all
                  ∷ start_timer c.reconnection_delay_msec
                  ∷ (stop_timer_p c).events
                else notify_all ∷ start_timer c.reconnection_delay_msec ∷ (stop_timer_p c).events))

-- The two ways in which `apcDisconnected` ends.
for_good_lem :
    (w : World) (id : ℕ) (param : Disconnected) (c : Client)
    → is_immediate param c ≡ true
    → apc_disconnected w id param c
      ≡ tell (told_disconnected param.reason) (
          emit notify_all
            (record (ended_timer apcclient_state_disconnect c) { disconnect_time = time_empty }))
unfolding apc_disconnected
for_good_lem w id param c now = rw (now, stop_timer_p_lem apcclient_state_disconnect c) refl

for_now_lem :
    (w : World) (id : ℕ) (param : Disconnected) (c : Client)
    → is_immediate param c ≡ false
    → apc_disconnected w id param c ≡ (
        if is_offline c.state
        then emit notify_all (go_offline w (ended_timer apcclient_state_offline c))
        else tell
            (told_offline param.reason)
            (emit notify_all (go_offline w (ended_timer apcclient_state_offline c))))
unfolding apc_disconnected
for_now_lem w id param c later = rw (later, stop_timer_p_lem apcclient_state_offline c) refl

Ended-for_good :
    (w : World) (id : ℕ) (param : Disconnected) (c : Client)
    → is_immediate param c ≡ true
    → Ended w param c (apc_disconnected w id param c)
Ended-for_good w id param c now = rw (for_good_lem w id param c now) (record {
  connector = ground arith;
  cache = ground arith;
  session = ground arith;
  for_good = λ _. (ground arith, ground arith, ground arith, ground arith);
  for_now = λ later. cc;
})

offline_lem :
    (w : World) (c : Client)
    → go_offline w (ended_timer apcclient_state_offline c) ≡ (record c {
      connector = none;
      state = apcclient_state_offline;
      has_reconnect_timer = true;
      disconnect_time =
          if c.disconnect_time == time_empty
          then c.now + c.disconnect_timeout_msec
          else c.disconnect_time;
      events =
          if w.timer_starts (stop_timer_p c).events
          then start_timer c.reconnection_delay_msec ∷ (stop_timer_p c).events
          else (stop_timer_p c).events;
    })
unfolding go_offline start_timer_p
offline_lem w c = ground arith

Ended-for_now :
    (w : World) (id : ℕ) (param : Disconnected) (c : Client)
    → is_immediate param c ≡ false
    → Ended w param c (apc_disconnected w id param c)
Ended-for_now w id param c later =
    rw (for_now_lem w id param c later, offline_lem w c)
      (record {
        connector = ground arith;
        cache = ground arith;
        session = ground arith;
        for_good = λ now. cc;
        for_now = λ _. (ground arith, ground arith, ground arith, λ starts. ground arith);
      })

pub apc_disconnected-Ended :
    (w : World) (id : ℕ) (param : Disconnected) (c : Client)
    → Ended w param c (apc_disconnected w id param c)
apc_disconnected-Ended w id param c = elim (Bool-cases (is_immediate param c)) [
  | inl now ↦ Ended-for_good w id param c now
  | inr later ↦ Ended-for_now w id param c later
]

gives_up_lem :
    (w : World) (c : Client)
    → c.state ≢ apcclient_state_disconnect
    → c.connector ≡ none
    → c.disconnect_time ≤ c.now
    → reconnect_timer_fun_p w false c
      ≡ tell (told_disconnected apc_stop_timeout) (disconnect_in none c).1
unfolding reconnect_timer_fun_p disconnect_p disconnect_in
gives_up_lem w c alive none_left late =
    rw (working, le→ltb-false _ _ late)
      (ap
        (λ (o : Option ℕ).
          if (disconnect_in o c).0
          then tell (told_disconnected apc_stop_timeout) (disconnect_in o c).1
          else (disconnect_in o c).1)
        none_left)
  where
    working : is_disconnected c.state ≡ false
    working = ground (arith, alive)

-- The timer has run off while the client has no connector and the deadline has passed: the session is
-- at an end, no timer and no deadline are left, and the input is told that it took too long.
pub timer-gives_up :
    (w : World) (c : Client)
    → c.state ≢ apcclient_state_disconnect
    → c.connector ≡ none
    → c.disconnect_time ≤ c.now
    → let c' = reconnect_timer_fun_p w false c in
      (c'.state ≡ apcclient_state_disconnect)
      × (c'.has_reconnect_timer ≡ false)
      × (c'.disconnect_time ≡ time_empty)
      × (c'.events ≡ (
          if c.has_input
          then told_disconnected apc_stop_timeout ∷ notify_all ∷ (stop_timer_p c).events
          else notify_all ∷ (stop_timer_p c).events))
unfolding disconnect_in stop_timer_p
timer-gives_up w c alive none_left late = rw (gives_up_lem w c alive none_left late) (ground arith)

-- A stop can leave the client offline: the state is set before the wait for the connector's report, and
-- a report that the connection was lost, with time left to reconnect, sets it again and starts the
-- timer. Its cache is cleared all the same.
pub stop-offline :
    (w : World) (id : ℕ) (param : Disconnected) (rest : List Notice) (c : Client)
    → c.connector ≡ some id
    → param.flags ≡ stop_fl_offline
    → c.intf_id ≢ apintfid_empty
    → c.disconnect_timeout_msec ≢ 0
    → (c' : Client) × (stop w (disconnected id param ∷ rest) c ≡ some c')
      × (c'.state ≡ apcclient_state_offline)
      × (c'.has_reconnect_timer ≡ true)
      × (c'.cache ≡ clear c.cache)
unfolding stop disconnect_wait wait_disconnect handle_notice
stop-offline w id param rest c at lost session time = (
  record (emit io_stop (record c2 { connector = none })) { cache = clear c2.cache },
  ap ended_as still,
  (ended.for_now later).0,
  (ended.for_now later).1,
  ap clear (ended.cache ∙ cache),
)
  where
    c1 : Client
    c1 = record (stop_timer_p c) {
      disconnect_time = time_empty;
      state = apcclient_state_disconnect;
    }

    ended_as : Option ℕ → Option Client
    ended_as o = elim (disconnect_wait w (disconnected id param ∷ rest) o c1) [
      | none ↦ none
      | some c3 ↦
          some (record (emit io_stop (record c3 { connector = none })) { cache = clear c3.cache })
    ]

    c2 : Client
    c2 = apc_disconnected w id param (emit (conn_disconnect id) c1)

    ended : Ended w param (emit (conn_disconnect id) c1) c2
    ended = apc_disconnected-Ended w id param (emit (conn_disconnect id) c1)

    still : (stop_timer_p c).connector ≡ some id
    still = unfold stop_timer_p in ground (arith, at)

    cache : c1.cache ≡ c.cache
    cache = unfold stop_timer_p in ground arith

    later : is_immediate param (emit (conn_disconnect id) c1) ≡ false
    later = unfold stop_timer_p in ground (arith, lost, session, time)
