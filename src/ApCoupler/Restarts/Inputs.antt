-- ===== src/ApCoupler/Restarts/Inputs.antt =====
-- What comes to the coupler of APInterface/APCoupler.cpp does not start or stop the client.
use apbridge.Prelude.{
  ℕ, ◌≡◌, refl, Bool, true, false, not, ◌&&◌, List, [], ◌∷◌, ◌∙◌, arith, zero, suc, Option, ap,
  if_both, ◌==◌,
}
use apbridge.ApmSerializer.{
  ApmNotice, ap_receive, event, time_indication, ready_for_time, tx_done, param_mac_address,
  param_mote_info, param_app_info, param_clk_src, param_net_id, param_ap_status, param_get_time,
  ap_lost_notice, ap_boot_notice, error_notice,
}
use apbridge.ApCoupler.State.{
  Call, start_client, stop_client, World, Coupler, Callback, clksource_none, ApClockSource,
  GpsStatus,
}
use apbridge.ApCoupler.Send
use apbridge.ApCoupler.Clock
use apbridge.ApCoupler.Inputs
use apbridge.ApCoupler.GpsInputs
use apbridge.ApCoupler.Time.{leap_checking_timer_p}
use apbridge.ApCoupler.Control.{request_stop}
use apbridge.ApCoupler.Session.{
  Input, apm, ap_reboot, ap_pause, ap_resume, clk_src_set, clk_src_error, connected, disconnected,
  resume, pause, offline, online, reset_ap, disconnect_ap, get_time, data_rx, gps_status,
  satellites_used, satellites_visible, clock_source, leap_timer, stop_request, passed, handle,
}

-- The client was started last, and not stopped.
unfoldable pub running : List Call → Bool
running [] = false
running (start_client ∷ calls) = true
running (stop_client ∷ calls) = false
running (_ ∷ calls) = running calls

-- The client was never started while it ran.
unfoldable pub alternates : List Call → Bool
alternates [] = true
alternates (start_client ∷ calls) = not (running calls) && alternates calls
alternates (_ ∷ calls) = alternates calls

pub record Same (c c' : Coupler) : Type 0 where
  pub client : c'.has_client ≡ c.has_client
  pub running : running c'.calls ≡ running c.calls
  pub alternates : alternates c'.calls ≡ alternates c.calls

Same-trans : {c d e : Coupler} → Same c d → Same d e → Same c e
Same-trans p q = record {
  client = q.client ∙ p.client;
  running = q.running ∙ p.running;
  alternates = q.alternates ∙ p.alternates;
}

send_event_p-Same : (e : ℕ) (c : Coupler) → Same c (Send.send_event_p e c)
unfolding Send.send_event_p running alternates
send_event_p-Same e c = ground arith

Same-refl : (c : Coupler) → Same c c
Same-refl c = record { client = refl; running = refl; alternates = refl }

insert-Same :
    (w : World) (cmd_id : ℕ) (bytes : List ℕ) (res err : Option Callback) (c : Coupler)
    → Same c (Send.insert w cmd_id bytes res err c).1
unfolding Send.insert running alternates
insert-Same w cmd_id bytes res err c = ground arith

send_get_param-Same :
    (w : World) (param_id : ℕ) (c : Coupler) → Same c (Send.send_get_param w param_id c).1
unfolding Send.send_get_param running alternates
send_get_param-Same w param_id c = ground arith

send_set_systime-Same :
    (w : World) (seq_num : ℕ) (c : Coupler) → Same c (Send.send_set_systime w seq_num c)
unfolding Send.send_set_systime running alternates
send_set_systime-Same w seq_num c = ground arith

-- The fields that the invariant does not read may change.
alike : (c c' : Coupler) → c'.has_client ≡ c.has_client → c'.calls ≡ c.calls → Same c c'
alike c c' p q = record { client = p; running = ap running q; alternates = ap alternates q }

get_ap_clk_source-Same : (w : World) (c : Coupler) → Same c (Send.send_get_ap_clk_source w c)
unfolding Send.send_get_ap_clk_source
get_ap_clk_source-Same w c = Same-trans (alike c _ refl refl) (send_get_param-Same w _ _)

handle_ap_boot-Same : (w : World) (c : Coupler) → Same c (Inputs.handle_ap_boot w c)
unfolding Inputs.handle_ap_boot Send.send_get_net_id Send.send_get_ap_mote_info
    Send.send_get_ap_app_info Send.send_get_ap_status
handle_ap_boot-Same w c = Same-trans (get_ap_clk_source-Same w c) (
    Same-trans (send_get_param-Same w _ _) (
      Same-trans (alike _ _ refl refl) (
        Same-trans (send_get_param-Same w _ _) (
          Same-trans (send_get_param-Same w _ _) (
            Same-trans (send_get_param-Same w _ _)
              (Same-trans (send_event_p-Same _ _) (alike _ _ refl refl)))))))

handle_ap_reboot-Same : (w : World) (c : Coupler) → Same c (Inputs.handle_ap_reboot w c)
unfolding Inputs.handle_ap_reboot Send.send_get_net_id Send.send_get_ap_mote_info
    Send.send_get_ap_app_info
handle_ap_reboot-Same w c = Same-trans (get_ap_clk_source-Same w c) (
    Same-trans (send_get_param-Same w _ _) (
      Same-trans (alike _ _ refl refl) (
        Same-trans (send_get_param-Same w _ _) (
          Same-trans (send_get_param-Same w _ _)
            (Same-trans (send_event_p-Same _ _) (alike _ _ refl refl))))))

handle_ready_for_time-Same :
    (w : World) (seq_num : ℕ) (c : Coupler) → Same c (Inputs.handle_ready_for_time w seq_num c)
unfolding Inputs.handle_ready_for_time Send.send_set_systime running alternates
handle_ready_for_time-Same w seq_num c = ground arith

handle_param_clk_src-Same :
    (source : ℕ) (c : Coupler) → Same c (Clock.handle_param_clk_src source c)
unfolding Clock.handle_param_clk_src running alternates
handle_param_clk_src-Same source c = ground arith

handle_ap_lost-Same : (c : Coupler) → Same c (Inputs.handle_ap_lost c)
unfolding Inputs.handle_ap_lost Send.send_event_p running alternates
handle_ap_lost-Same c = ground arith

handle_apm-Same : (w : World) (n : ApmNotice) (c : Coupler) → Same c (Inputs.handle_apm w n c)
unfolding Inputs.handle_apm Inputs.handle_ap_receive Inputs.handle_tx_done
    Inputs.handle_param_app_info Inputs.handle_param_get_time Inputs.handle_event
    Inputs.handle_time_indication Inputs.handle_param_mac_address Inputs.handle_param_mote_info
    Inputs.handle_param_net_id Inputs.handle_param_ap_status Inputs.handle_error
    Send.send_get_ap_status running alternates
handle_apm-Same w (ap_receive bytes) c = ground arith
handle_apm-Same w (event e state alarms) c = send_get_param-Same w _ c
handle_apm-Same w (time_indication bytes) c = Same-refl c
handle_apm-Same w (ready_for_time seq_num) c = handle_ready_for_time-Same w seq_num c
handle_apm-Same w (tx_done packet_id status) c = ground arith
handle_apm-Same w (param_mac_address mac) c = alike c _ refl refl
handle_apm-Same w (param_mote_info v) c = alike c _ refl refl
handle_apm-Same w (param_app_info v) c = ground arith
handle_apm-Same w (param_clk_src source) c = handle_param_clk_src-Same source c
handle_apm-Same w (param_net_id n) c = alike c _ refl refl
handle_apm-Same w (param_ap_status n) c = alike c _ refl refl
handle_apm-Same w (param_get_time asn offset) c = ground arith
handle_apm-Same w ap_lost_notice c = handle_ap_lost-Same c
handle_apm-Same w ap_boot_notice c = handle_ap_boot-Same w c
handle_apm-Same w (error_notice cmd_id rc) c = Same-refl c

handle_apms-Same :
    (w : World) (notices : List ApmNotice) (c : Coupler) → Same c (Inputs.handle_apms w notices c)
unfolding Inputs.handle_apms
handle_apms-Same w [] c = Same-refl c
handle_apms-Same w (n ∷ notices) c =
    Same-trans (handle_apm-Same w n c) (handle_apms-Same w notices _)

wait_clksource-Same :
    (n : ℕ) (meanwhile : ℕ → Coupler → Coupler) (c : Coupler)
    → ((k : ℕ) (d : Coupler) → Same d (meanwhile k d))
    → Same c (Clock.wait_clksource n meanwhile c)
unfolding Clock.wait_clksource
wait_clksource-Same zero meanwhile c each = Same-refl c
wait_clksource-Same (suc n) meanwhile c each =
    if_both (Same c) (c.ap_info.clksource == clksource_none) _ _
      (λ _. Same-trans (each n c) (wait_clksource-Same n meanwhile (meanwhile n c) each))
      (λ _. Same-refl c)

choose_source-Same :
    (w : World) (is_int_clk : Bool) (c : Coupler) → Same c (Clock.choose_source w is_int_clk c)
unfolding Clock.choose_source Send.send_set_ap_clk_source Send.send_set_param Send.insert running
    alternates
choose_source-Same w is_int_clk c = ground arith

connected-Same :
    (w : World) (notices : ℕ → List ApmNotice) (flags : ℕ) (c : Coupler)
    → Same c (Inputs.connected w notices flags c)
unfolding Inputs.connected Clock.set_clock_source_p
connected-Same w notices flags c = Same-trans (alike c _ refl refl) (
    Same-trans
      (wait_clksource-Same 100 (λ n. Inputs.handle_apms w (notices n)) _
        (λ k d. handle_apms-Same w (notices k) d))
      (Same-trans (choose_source-Same w _ _) (send_event_p-Same _ _)))

gps_status-Same :
    (w : World) (status : GpsStatus) (c : Coupler)
    → Same c (GpsInputs.handle_gps_status_changed w status c)
unfolding GpsInputs.handle_gps_status_changed running alternates
gps_status-Same w status c = ground arith

pub leap_checking_timer_p-Same :
    (w : World) (error : Bool) (c : Coupler) → Same c (leap_checking_timer_p w error c)
unfolding leap_checking_timer_p running alternates
leap_checking_timer_p-Same w error c = ground arith

set_clock_srource-Same :
    (source : ApClockSource) (c : Coupler) → Same c (Clock.set_clock_srource source c)
unfolding Clock.set_clock_srource running alternates
set_clock_srource-Same source c = ground arith

-- No input starts or stops the client.
pub handle-Same : (w : World) (i : Input) (c : Coupler) → Same c (handle w i c)
unfolding handle Inputs.handle_ap_pause Inputs.handle_ap_resume Inputs.disconnected Inputs.resume
    Inputs.pause Inputs.offline Inputs.online Inputs.reset_ap Inputs.disconnect_ap Inputs.get_time
    Inputs.data_rx GpsInputs.handle_satellites_used_changed
    GpsInputs.handle_satellites_visible_changed Clock.handle_set_clk_src_response_p
    Clock.handle_set_clk_src_error_response_p Send.send_ap_send request_stop running alternates
handle-Same w (apm notice) c = handle_apm-Same w notice c
handle-Same w ap_reboot c = handle_ap_reboot-Same w c
handle-Same w ap_pause c = ground arith
handle-Same w ap_resume c = ground arith
handle-Same w clk_src_set c = ground arith
handle-Same w clk_src_error c = ground arith
handle-Same w (connected notices flags) c = connected-Same w notices flags c
handle-Same w disconnected c = Same-trans (alike c _ refl refl) (send_event_p-Same _ _)
handle-Same w resume c = ground arith
handle-Same w pause c = ground arith
handle-Same w offline c = ground arith
handle-Same w online c = ground arith
handle-Same w reset_ap c = send_event_p-Same _ c
handle-Same w disconnect_ap c = send_event_p-Same _ c
handle-Same w get_time c = ground arith
handle-Same w (data_rx hdr payload) c = insert-Same w _ _ _ _ c
handle-Same w (gps_status status) c = gps_status-Same w status c
handle-Same w (satellites_used n) c = alike c _ refl refl
handle-Same w (satellites_visible n) c = alike c _ refl refl
handle-Same w (clock_source source) c = set_clock_srource-Same source c
handle-Same w leap_timer c = leap_checking_timer_p-Same w false c
handle-Same w stop_request c =
    if_both (Same c) c.has_thread _ _ (λ _. send_event_p-Same _ c) (λ _. Same-refl c)
handle-Same w (passed msec usec) c = alike c _ refl refl
