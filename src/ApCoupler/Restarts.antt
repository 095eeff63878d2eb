-- ===== src/ApCoupler/Restarts.antt =====
-- The starts and stops of the manager's client in APInterface/APCoupler.cpp.
pub mod Inputs
pub mod Turns
use apbridge.Prelude.{
  ℕ, ◌≡◌, refl, Bool, true, false, not, ◌&&◌, List, [], ◌∷◌, arith, if◌then◌else◌, ◌==◌, zero, suc,
  Option, none, some, Bool-cases, inl, inr, ltb, if_both, ◌∙◌,
}
use apbridge.ApCoupler.State.{
  Call, start_client, stop_client, disable_join, enable_abort, World, Coupler, emit_through,
}
use apbridge.ApCoupler.Send.{has_any, e_timeout}
use apbridge.ApCoupler.Time.{leap_checking_timer_p}
use apbridge.ApCoupler.Machine.{
  Place, blackout, preparing, sleeping, connecting, joined, stopping, last, ended, returned, Look,
  again, stop_seen, got, look, turn, after_look, stopped_at, resume_at, prepare, prepare_ap_p,
  prepare_stop, run_state_machine_p, synch_stop_retry, synch_stop_p, sleep, no_boot, begin_work,
  begin_thread, after_connecting, mask_of, end_of, boots,
}
use apbridge.ApCoupler.Session.{Act, input, look_in, act, run, handle}
use apbridge.ApCoupler.Restarts.Inputs.{
  running, alternates, Same, handle-Same, leap_checking_timer_p-Same,
}

-- Where the client may have been started.
unfoldable pub may_run : Place → Bool
may_run connecting = true
may_run joined = true
may_run (last finish) = true
may_run ended = true
may_run (returned p e) = may_run p
may_run _ = false

-- The client is there, was never started twice, and runs only where it may.
pub record Good (s : Place × Coupler) : Type 0 where
  pub client : s.1.has_client ≡ true
  pub starts : alternates s.1.calls ≡ true
  pub place : running s.1.calls ≡ true → may_run s.0 ≡ true

-- The client is there, and is not started.
pub record Quiet (c : Coupler) : Type 0 where
  pub client : c.has_client ≡ true
  pub starts : alternates c.calls ≡ true
  pub stopped : running c.calls ≡ false

pub run_state_machine_p-Good : (w : World) (c : Coupler) → Quiet c → Good (run_state_machine_p w c)
unfolding run_state_machine_p synch_stop_retry sleep running alternates may_run
run_state_machine_p-Good w c q = ground (arith, q.client, q.starts, q.stopped)

prepare-Good : (e : ℕ) (c : Coupler) → Quiet c → Good (prepare e c)
unfolding prepare running alternates may_run
prepare-Good e c q = ground (arith, q.client, q.starts, q.stopped)

pub prepare_ap_p-Good : (w : World) (e : ℕ) (c : Coupler) → Quiet c → Good (prepare_ap_p w e c)
unfolding prepare_ap_p
prepare_ap_p-Good w e c q =
    if_both Good (has_any e boots) _ _ (λ _. run_state_machine_p-Good w c q)
      (λ _. prepare-Good e c q)

pub no_boot-Good : (n timeout : ℕ) (c : Coupler) → Quiet c → Good (no_boot n timeout c)
unfolding no_boot running alternates may_run
no_boot-Good zero timeout c q = ground (arith, q.client, q.starts, q.stopped)
no_boot-Good (suc n) timeout c q = ground (arith, q.client, q.starts, q.stopped)

pub prepare_stop-Good :
    (c : Coupler) → c.has_client ≡ true → alternates c.calls ≡ true → Good (prepare_stop c)
unfolding prepare_stop running alternates may_run
prepare_stop-Good c client starts = ground (arith, client, starts)

pub synch_stop_p-Good :
    (w : World) (e : ℕ) (c : Coupler)
    → c.has_client ≡ true
    → alternates c.calls ≡ true
    → Good (synch_stop_p w e c)
unfolding synch_stop_p running alternates may_run
synch_stop_p-Good w e c client starts =
    if_both Good (w.is_connected c.calls) _ _
      (λ _. record { client = client; starts = rw client starts; place = rw client (λ p. p) })
      (λ _.
        prepare_ap_p-Good w e _
          (record { client = client; starts = rw client starts; stopped = rw client refl }))

pub emit_through-Quiet :
    (b : Bool) (c : Coupler) (e : Call)
    → running (emit_through b e c).calls ≡ running c.calls
    → alternates (emit_through b e c).calls ≡ alternates c.calls
    → Quiet c
    → Quiet (emit_through b e c)
emit_through-Quiet b c e r a q = record {
  client = q.client;
  starts = a ∙ q.starts;
  stopped = r ∙ q.stopped;
}

pub begin_work-Good : (w : World) (c : Coupler) → Quiet c → Good (begin_work w c)
unfolding begin_work running alternates
begin_work-Good w c q =
    let same = leap_checking_timer_p-Same w false c in
    prepare_ap_p-Good w _ _ (
      emit_through-Quiet c.has_transport (leap_checking_timer_p w false c) disable_join
        (ground arith) (ground arith)
        (record {
          client = same.client ∙ q.client;
          starts = same.alternates ∙ q.starts;
          stopped = same.running ∙ q.stopped;
        }))

pub may_run-Quiet : (p : Place) (c : Coupler) → may_run p ≡ false → Good (p, c) → Quiet c
may_run-Quiet p c never g = record {
  client = g.client;
  starts = g.starts;
  stopped = ground (arith, never, g.place);
}
