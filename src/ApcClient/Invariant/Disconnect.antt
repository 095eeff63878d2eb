-- ===== src/ApcClient/Invariant/Disconnect.antt =====
-- The end of a connection keeps the invariant of APInterface/APCClient.cpp.
use apbridge.Prelude.{ℕ, ◌<◌, ◌≡◌, refl, Bool-cases, inl, inr, false, none, arith, if_both}
use apbridge.NotifThread.{Disconnected}
use apbridge.ApcClient.State.{
  World, Client, Event, apcclient_state_offline, apcclient_state_disconnect, time_empty,
  start_timer_p, stop_timer_p, told_offline, notify_all, tell,
}
use apbridge.ApcClient.Notices.{apc_disconnected, go_offline, is_immediate, is_offline}
use apbridge.ApcClient.Invariant.{ClientInv, emit-ClientInv}

-- No timer runs, and all else that the invariant reads is as it was.
record Halted (c c' : Client) : Type 0 where
  state : c'.state ≡ c.state
  timer : c'.has_reconnect_timer ≡ false
  time : c'.disconnect_time ≡ c.disconnect_time
  timeout : c'.disconnect_timeout_msec ≡ c.disconnect_timeout_msec

stop_timer_p-Halted : (c : Client) → Halted c (stop_timer_p c)
unfolding stop_timer_p
stop_timer_p-Halted c = ground arith

tell-ClientInv : (e : Event) (c : Client) → ClientInv c → ClientInv (tell e c)
tell-ClientInv e c v = if_both ClientInv _ _ _ (λ _. emit-ClientInv e c v) (λ _. v)

-- A client that is neither online nor waits.
ended-ClientInv :
    (c : Client)
    → c.state ≡ apcclient_state_disconnect
    → c.has_reconnect_timer ≡ false
    → c.disconnect_time ≡ time_empty
    → ClientInv c
ended-ClientInv c s timer time = ground (arith, s, timer, time)

-- A client that waits for the next attempt.
waiting-ClientInv :
    (c : Client) → c.state ≡ apcclient_state_offline → time_empty < c.disconnect_time → ClientInv c
waiting-ClientInv c s time = ground (arith, s, time)

start_timer_p-waiting :
    (w : World) (c : Client)
    → c.state ≡ apcclient_state_offline
    → time_empty < c.disconnect_time
    → ClientInv (start_timer_p w c).1
unfolding start_timer_p
start_timer_p-waiting w c s time = elim (Bool-cases (w.timer_starts c.events)) [
  | inl starts ↦ rw starts (waiting-ClientInv _ s time)
  | inr fails ↦ rw fails (waiting-ClientInv _ s time)
]

go_offline-ClientInv :
    (w : World) (c : Client)
    → c.state ≡ apcclient_state_offline
    → time_empty < c.disconnect_timeout_msec
    → ClientInv (go_offline w c)
unfolding go_offline
go_offline-ClientInv w c s timeout =
    start_timer_p-waiting w _ (ground (arith, s)) (ground (arith, timeout))

pub apc_disconnected-ClientInv :
    (w : World) (id : ℕ) (param : Disconnected) (c : Client)
    → ClientInv (apc_disconnected w id param c)
unfolding apc_disconnected
apc_disconnected-ClientInv w id param c = elim (Bool-cases (is_immediate param c)) [
  | inl now ↦
      let h =
        stop_timer_p-Halted (record c { connector = none; state = apcclient_state_disconnect }) in
      rw now
        (tell-ClientInv _ _ (emit-ClientInv notify_all _ (ended-ClientInv _ h.state h.timer refl)))
  | inr later ↦
      let lost = record c { connector = none; state = apcclient_state_offline } in
      let h = stop_timer_p-Halted lost in
      let gone = emit-ClientInv notify_all _ (
        go_offline-ClientInv w (stop_timer_p lost) h.state
          (rw h.timeout (ground (arith, later)))) in
      rw later (
        if_both ClientInv (is_offline c.state) _ _ (λ _. gone)
          (λ _. tell-ClientInv (told_offline param.reason) _ gone))
]
