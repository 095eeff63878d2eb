-- ===== src/ApCoupler/Control.antt =====
-- The opening, the start and the stop of APInterface/APCoupler.cpp.
use apbridge.Prelude.{true, false, if◌then◌else◌}
use apbridge.ApcProto.{ApcError, apc_ok, apc_err_state}
use apbridge.ApCoupler.State.{
  stop_transport, stop_client, stop_gps, World, Coupler, InitParam, emit_if,
}
use apbridge.ApCoupler.Send.{send_event_p, e_stop}
use apbridge.ApCoupler.Machine.{Place, begin_thread}

-- `open`
unfoldable pub open_coupler : InitParam → Coupler → ApcError × Coupler
open_coupler p c = if c.has_thread then (apc_err_state, c) else (
  apc_ok,
  record c {
    has_transport = true;
    has_client = true;
    has_gps = p.has_gps;
    gpsd_conn = p.gpsd_conn;
    satellites_used = 0;
    satellites_visible = 0;
    hw_reset_timeout_msec = p.reset_boot_timeout_msec;
    disconnect_timeout_short_msec = p.disconnect_short_boot_timeout_msec;
    disconnect_timeout_long_msec = p.disconnect_long_boot_timeout_msec;
    ap_clk_source = p.ap_clk_source;
  },
)

-- `start`, with the thread up to its first wait.
unfoldable pub start : World → Coupler → Place × Coupler
start w c = begin_thread w (record c { has_thread = true })

-- `stop` up to the join of the thread.
unfoldable pub request_stop : Coupler → Coupler
request_stop c = if c.has_thread then send_event_p e_stop c else c

-- `stop` after the join.
unfoldable pub finish_stop : Coupler → Coupler
finish_stop c =
    let c1 =
      emit_if c.has_transport stop_transport
        (emit_if c.has_client stop_client (emit_if c.has_gps stop_gps c)) in
    record c1 { has_thread = false; has_gps = false; has_transport = false; has_client = false }
