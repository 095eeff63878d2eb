-- ===== src/ApCoupler/Restarts/Turns.antt =====
-- The turns of the state machine of APInterface/APCoupler.cpp keep the invariant on its client.
use Prim.Native.Nat.{bit_xor}
use apbridge.Prelude.{
  sym, ℕ, ◌≡◌, refl, Bool, true, false, not, ◌&&◌, List, [], ◌∷◌, ◌∙◌, arith, ◌==◌, Option, none,
  some, if_both, ltb,
}
use apbridge.ApCoupler.State.{
  enable_join, enable_abort, World, Coupler, InitParam, new_coupler, emit_through,
}
use apbridge.ApCoupler.Send.{e_timeout, e_mngr_connect}
use apbridge.ApCoupler.Time.{is_negative, sec_since_midnight_p, ap_blackout}
use apbridge.ApCoupler.Machine.{
  Place, blackout, preparing, sleeping, connecting, joined, stopping, last, ended, returned, Look,
  again, stop_seen, got, look, turn, after_look, stopped_at, resume_at, sleep, after_connecting,
  mask_of, end_of, begin_thread,
}
use apbridge.ApCoupler.Control.{start, open_coupler}
use apbridge.ApCoupler.Session.{Act, input, look_in, act, run}
use apbridge.ApCoupler.Restarts.Inputs.{running, alternates, handle-Same}
use apbridge.ApCoupler.Restarts.{
  may_run, Good, Quiet, run_state_machine_p-Good, prepare_ap_p-Good, no_boot-Good,
  prepare_stop-Good, synch_stop_p-Good, emit_through-Quiet, begin_work-Good, may_run-Quiet,
}

joined-Good :
    (b : Bool) (net_id : ℕ) (c : Coupler)
    → c.has_client ≡ true
    → alternates c.calls ≡ true
    → Good (joined, emit_through b (enable_join net_id) c)
unfolding alternates may_run
joined-Good b net_id c client starts = record {
  client = client;
  starts = ground (arith, starts);
  place = λ _. refl;
}

after_connecting-Good :
    (w : World) (e : ℕ) (c : Coupler)
    → c.has_client ≡ true
    → alternates c.calls ≡ true
    → Good (after_connecting w e c)
unfolding after_connecting
after_connecting-Good w e c client starts =
    if_both Good (bit_xor e e_mngr_connect == 0) _ _
      (λ _. joined-Good c.has_transport _ c client starts)
      (λ _. synch_stop_p-Good w e c client starts)

sleep-Good : (c : Coupler) → Quiet c → Good (sleep c)
unfolding sleep running alternates may_run
sleep-Good c q = ground (arith, q.client, q.starts, q.stopped)

ended-Good : (c : Coupler) → c.has_client ≡ true → alternates c.calls ≡ true → Good (ended, c)
unfolding may_run
ended-Good c client starts = record { client = client; starts = starts; place = λ _. refl }

resume_at-Good :
    (w : World) (p : Place) (e : ℕ) (c : Coupler) → Good (p, c) → Good (resume_at w p e c)
unfolding resume_at may_run running alternates
resume_at-Good w (blackout finish) e c g = begin_work-Good w c (may_run-Quiet _ c refl g)
resume_at-Good w (preparing n timeout finish) e c g =
    let q = may_run-Quiet _ c refl g in
    if_both Good (e == e_timeout) _ _ (λ _. no_boot-Good n timeout c q)
      (λ _.
        run_state_machine_p-Good w _
          (emit_through-Quiet c.has_transport c enable_abort (ground arith) (ground arith) q))
resume_at-Good w (sleeping until) e c g = run_state_machine_p-Good w c (may_run-Quiet _ c refl g)
resume_at-Good w connecting e c g = after_connecting-Good w e c g.client g.starts
resume_at-Good w joined e c g = synch_stop_p-Good w e c g.client g.starts
resume_at-Good w (stopping none finish) e c g = sleep-Good c (may_run-Quiet _ c refl g)
resume_at-Good w (stopping (some events) finish) e c g =
    prepare_ap_p-Good w events c (may_run-Quiet _ c refl g)
resume_at-Good w (last finish) e c g = ended-Good _ g.client (ground (arith, g.starts))
resume_at-Good w ended e c g = g
resume_at-Good w (returned p e') e c g = ended-Good c g.client g.starts

stopped_at-Good : (p : Place) (c : Coupler) → Good (p, c) → Good (stopped_at p c)
unfolding stopped_at may_run
stopped_at-Good (last finish) c g = ended-Good c g.client g.starts
stopped_at-Good (blackout finish) c g = prepare_stop-Good c g.client g.starts
stopped_at-Good (preparing n timeout finish) c g = prepare_stop-Good c g.client g.starts
stopped_at-Good (sleeping until) c g = prepare_stop-Good c g.client g.starts
stopped_at-Good connecting c g = prepare_stop-Good c g.client g.starts
stopped_at-Good joined c g = prepare_stop-Good c g.client g.starts
stopped_at-Good (stopping events finish) c g = prepare_stop-Good c g.client g.starts
stopped_at-Good ended c g = prepare_stop-Good c g.client g.starts
stopped_at-Good (returned p e) c g = prepare_stop-Good c g.client g.starts

-- The coupler behind a look.
abbrev looked : Look → Coupler
looked (again c) = c
looked (stop_seen c) = c
looked (got e c) = c

look-Good :
    (p : Place) (mask : ℕ) (finish : Option ℕ) (c : Coupler)
    → Good (p, c)
    → Good (p, looked (look mask finish c))
unfolding look
look-Good p mask finish c g = ground (arith, g)

after_look-Good : (w : World) (p : Place) (l : Look) → Good (p, looked l) → Good (after_look w p l)
unfolding after_look may_run
after_look-Good w p (again c) g = g
after_look-Good w p (stop_seen c) g = stopped_at-Good p c g
after_look-Good w p (got e c) g = record { client = g.client; starts = g.starts; place = g.place }

looks :
    (w : World) (p : Place) (c : Coupler)
    → Good (p, c)
    → Good (after_look w p (look (mask_of p) (end_of p) c))
looks w p c g = after_look-Good w p _ (look-Good p _ _ c g)

turn-Good : (w : World) (p : Place) (c : Coupler) → Good (p, c) → Good (turn w p c)
unfolding turn may_run
turn-Good w ended c g = g
turn-Good w (returned p e) c g =
    resume_at-Good w p e c (record { client = g.client; starts = g.starts; place = g.place })
turn-Good w (sleeping until) c g =
    if_both Good (ltb c.now until) _ _ (λ _. g)
      (λ _. run_state_machine_p-Good w c (may_run-Quiet (sleeping until) c refl g))
turn-Good w (blackout finish) c g = looks w (blackout finish) c g
turn-Good w (preparing n timeout finish) c g = looks w (preparing n timeout finish) c g
turn-Good w connecting c g = looks w connecting c g
turn-Good w joined c g = looks w joined c g
turn-Good w (stopping events finish) c g = looks w (stopping events finish) c g
turn-Good w (last finish) c g = looks w (last finish) c g

act-Good : (w : World) (a : Act) (s : Place × Coupler) → Good s → Good (act w a s)
unfolding act
act-Good w (input i) s g =
    let same = handle-Same w i s.1 in
    record {
      client = same.client ∙ g.client;
      starts = same.alternates ∙ g.starts;
      place = λ p. g.place (sym same.running ∙ p);
    }
act-Good w look_in s g = turn-Good w s.0 s.1 g

run-Good : (w : World) (acts : List Act) (s : Place × Coupler) → Good s → Good (run w acts s)
unfolding run
run-Good w [] s g = g
run-Good w (a ∷ acts) s g = run-Good w acts (act w a s) (act-Good w a s g)

begin_thread-Good : (w : World) (c : Coupler) → Quiet c → Good (begin_thread w c)
unfolding begin_thread may_run
begin_thread-Good w c q =
    if_both Good
      (is_negative (sec_since_midnight_p ap_blackout (w.cur_utc c.sys_now))
        && w.is_leap_day c.sys_now)
      _ _
      (λ _. record {
        client = q.client;
        starts = q.starts;
        place = λ p. absurd (ground (arith, q.stopped, p));
      })
      (λ _. begin_work-Good w c q)

-- The thread of an opened coupler starts, and then anything may come and the thread have its turns, in
-- any order, whatever the world answers. The manager's client is never started while it runs: a
-- stop lies between any two starts. And it runs only where the thread waits for the connection or
-- for its end, or where it is about to end.
pub run-Alternates :
    (w : World) (p : InitParam) (now sys_now : ℕ) (acts : List Act)
    → let s = run w acts (start w (open_coupler p (new_coupler now sys_now)).1) in
      (alternates s.1.calls ≡ true) × ((running s.1.calls && not (may_run s.0)) ≡ false)
unfolding start open_coupler new_coupler running alternates
run-Alternates w p now sys_now acts =
    let g =
      run-Good w acts _
        (begin_thread-Good w _ (record { client = refl; starts = refl; stopped = refl })) in
    (g.starts, ground (arith, g.place))
