-- ===== src/ApCoupler/Session.antt =====
-- Everything that happens to the coupler of APInterface/APCoupler.cpp, one thing after the other.
use apbridge.Prelude.{ℕ, ◌+◌, false, List, [], ◌∷◌}
use apbridge.ApmSerializer.{ApmNotice}
use apbridge.ApcClient.State.{SendHdr}
use apbridge.ApCoupler.State.{ApClockSource, GpsStatus, World, Coupler}
use apbridge.ApCoupler.Clock.{
  set_clock_srource, handle_set_clk_src_response_p, handle_set_clk_src_error_response_p,
}
use apbridge.ApCoupler.Inputs
use apbridge.ApCoupler.GpsInputs
use apbridge.ApCoupler.Time.{leap_checking_timer_p}
use apbridge.ApCoupler.Machine.{Place, turn}
use apbridge.ApCoupler.Control.{request_stop}

-- What comes from the access point, the manager's client, the GPS and the timer; a request to stop;
-- and the time that passes.
pub data Input : Type 0 where
  apm : ApmNotice → Input
  ap_reboot ap_pause ap_resume clk_src_set clk_src_error : Input
  connected : (ℕ → List ApmNotice) → ℕ → Input
  disconnected resume pause offline online reset_ap disconnect_ap get_time : Input
  data_rx : SendHdr → List ℕ → Input
  gps_status : GpsStatus → Input
  satellites_used satellites_visible : ℕ → Input
  clock_source : ApClockSource → Input
  leap_timer stop_request : Input
  passed : ℕ → ℕ → Input

unfoldable pub handle : World → Input → Coupler → Coupler
handle w (apm notice) c = Inputs.handle_apm w notice c
handle w ap_reboot c = Inputs.handle_ap_reboot w c
handle w ap_pause c = Inputs.handle_ap_pause c
handle w ap_resume c = Inputs.handle_ap_resume c
handle w clk_src_set c = handle_set_clk_src_response_p c
handle w clk_src_error c = handle_set_clk_src_error_response_p c
handle w (connected notices flags) c = Inputs.connected w notices flags c
handle w disconnected c = Inputs.disconnected c
handle w resume c = Inputs.resume c
handle w pause c = Inputs.pause c
handle w offline c = Inputs.offline c
handle w online c = Inputs.online c
handle w reset_ap c = Inputs.reset_ap c
handle w disconnect_ap c = Inputs.disconnect_ap c
handle w get_time c = Inputs.get_time c
handle w (data_rx hdr payload) c = Inputs.data_rx w hdr payload c
handle w (gps_status status) c = GpsInputs.handle_gps_status_changed w status c
handle w (satellites_used n) c = GpsInputs.handle_satellites_used_changed n c
handle w (satellites_visible n) c = GpsInputs.handle_satellites_visible_changed n c
handle w (clock_source source) c = set_clock_srource source c
handle w leap_timer c = leap_checking_timer_p w false c
handle w stop_request c = request_stop c
handle w (passed msec usec) c = record c { now = c.now + msec; sys_now = c.sys_now + usec }

-- A thing that happens: an input, or a turn of the machine's thread.
pub data Act : Type 0 where
  input : Input → Act
  look_in : Act

unfoldable pub act : World → Act → Place × Coupler → Place × Coupler
act w (input i) (p, c) = (p, handle w i c)
act w look_in (p, c) = turn w p c

-- Acts in their order.
unfoldable pub run : World → List Act → Place × Coupler → Place × Coupler
run w [] s = s
run w (a ∷ acts) s = run w acts (act w a s)
