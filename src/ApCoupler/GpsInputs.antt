-- ===== src/ApCoupler/GpsInputs.antt =====
-- What the GPS reports to APInterface/APCoupler.cpp.
use apbridge.Prelude.{ℕ, false, not, ◌&&◌, [], ◌∷◌, none, if◌then◌else◌, ◌==◌}
use apbridge.ApCoupler.State.{insert_msg, client_gps_lock, GpsStatus, World, Coupler, emit}
use apbridge.ApCoupler.Clock.{clk_source_pps}
use apbridge.ApCoupler.Inputs.{is_sync}

-- `DN_API_LOC_CMD_WRITE_GPS_STATUS`
abbrev pub cmd_write_gps_status : ℕ
cmd_write_gps_status = 0x2D

abbrev pub gps_lock_of : GpsStatus → ℕ
gps_lock_of status = if is_sync status then 0 else 1

-- `handleGPSStatusChanged`. The lock state is an `enum`, whose four bytes are sent as they are.
unfoldable pub handle_gps_status_changed : World → GpsStatus → Coupler → Coupler
handle_gps_status_changed w status c =
    if not c.gpsd_conn
    then c
    else (let c' = record c { cur_gps_status = status } in
        let lock = gps_lock_of status in
        if c.has_transport
          && (c.has_client && ((c.ap_info.clksource == clk_source_pps) && w.is_port_ready c.calls))
        then emit (insert_msg cmd_write_gps_status (lock ∷ 0 ∷ 0 ∷ 0 ∷ []) false none none)
            (emit (client_gps_lock lock) c')
        else c')

unfoldable pub handle_satellites_used_changed : ℕ → Coupler → Coupler
handle_satellites_used_changed used c = record c { satellites_used = used }

unfoldable pub handle_satellites_visible_changed : ℕ → Coupler → Coupler
handle_satellites_visible_changed visible c = record c { satellites_visible = visible }
