-- ===== src/ApCoupler/Examples.antt =====
-- Runs of APInterface/APCoupler.cpp.
use apbridge.Prelude.{
  ℕ, ◌<◌, ◌≤◌, ◌≡◌, ◌⊎◌, refl, true, false, not, ◌&&◌, List, [], ◌∷◌, some, arith,
}
use apbridge.ApcProto.{apc_ok}
use apbridge.ApmSerializer.{ap_boot_notice, param_clk_src}
use apbridge.ApCoupler.State.{
  disable_abort, hw_reset_ap, stop_node, World, Coupler, InitParam, new_coupler, mngrset,
}
use apbridge.ApCoupler.Send.{e_apm_lost}
use apbridge.ApCoupler.Clock.{choose_source, with_clksource}
use apbridge.ApCoupler.Machine.{blackout, prepare, prepare_ap_p, begin_thread}
use apbridge.ApCoupler.Control.{open_coupler, start}
use apbridge.ApCoupler.Session.{Act, input, look_in, apm, connected, passed, run}
use apbridge.ApCoupler.Resets.{silence, prepare-gives_up}
use apbridge.ApCoupler.Day.{begin_thread-bounds}
use apbridge.ApCoupler.Settle.{kept, settled, set_clock, choose_source-Settled}
use apbridge.ApCoupler.Restarts.{may_run}
use apbridge.ApCoupler.Restarts.Inputs.{alternates, running}
use apbridge.ApCoupler.Restarts.Turns.{run-Alternates}

-- A world in which all goes well, on the evening of a day with a leap second.
abbrev pub world : World
world = record {
  inserts = λ _. apc_ok;
  is_port_ready = λ _. true;
  last_rsp_time = λ _. 0;
  client_starts = λ _. apc_ok;
  is_connected = λ _. false;
  net_id = λ _. 7;
  leap_secs = λ _. 27;
  is_leap_day = λ _. true;
  cur_utc = λ _. (23, 59, 45);
}

abbrev pub init_param : InitParam
init_param = record {
  has_gps = false;
  gpsd_conn = false;
  reset_boot_timeout_msec = 10;
  disconnect_short_boot_timeout_msec = 20;
  disconnect_long_boot_timeout_msec = 30;
  ap_clk_source = mngrset;
}

abbrev pub opened : Coupler
opened = (open_coupler init_param (new_coupler 0 0)).1

prepare-gives_up_example :
    (run world (silence 4 30) (prepare_ap_p world e_apm_lost opened)).1.calls
    ≡ stop_node ∷ hw_reset_ap ∷ hw_reset_ap ∷ hw_reset_ap ∷ hw_reset_ap ∷ disable_abort ∷ []
unfolding open_coupler prepare_ap_p prepare new_coupler
prepare-gives_up_example =
    prepare-gives_up world e_apm_lost 30 opened refl refl refl (omega arith) (omega arith)
      (omega arith) (omega arith) (omega arith) (omega arith)

begin_thread-bounds_example :
    (finish : ℕ) × (begin_thread world opened ≡ (blackout (some finish), opened))
    × (29000 ≤ finish)
    × (finish < 60000)
unfolding open_coupler new_coupler
begin_thread-bounds_example = begin_thread-bounds world opened (omega arith) (omega arith) refl

abbrev told : Coupler
told = with_clksource 1 opened

choose_source-Settled_example :
    ((1 ≡ kept mngrset)
      ⊎ (choose_source world true told ≡ record (with_clksource (kept mngrset) told) {
        calls = set_clock (kept mngrset) true ∷ [];
      }))
    × (choose_source world false (with_clksource (kept mngrset) (choose_source world true told))
        ≡ settled mngrset false (with_clksource (kept mngrset) (choose_source world true told)))
unfolding open_coupler new_coupler
choose_source-Settled_example =
    choose_source-Settled world true false told refl (λ e. omega (arith, e))

abbrev day : List Act
day =
    input (passed 60000 0)
    ∷ look_in
    ∷ look_in
    ∷ input (apm ap_boot_notice)
    ∷ look_in
    ∷ look_in
    ∷ input (apm (param_clk_src 3))
    ∷ input (connected (λ _. []) 1)
    ∷ look_in
    ∷ look_in
    ∷ []

run-Alternates_example :
    let s = run world day (start world (open_coupler init_param (new_coupler 0 0)).1) in
    (alternates s.1.calls ≡ true) × ((running s.1.calls && not (may_run s.0)) ≡ false)
run-Alternates_example = run-Alternates world init_param 0 0 day
