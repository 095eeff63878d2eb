-- ===== src/ApCoupler/Inputs.antt =====
-- What the manager's client and the access point report to APInterface/APCoupler.cpp.
use Prim.Native.Nat.{bit_and}
use apbridge.Prelude.{
  ℕ, ◌+◌, ◌-◌, ◌*◌, ◌/◌, ◌%◌, ◌^◌, Bool, true, false, not, ◌&&◌, ◌||◌, List, [], ◌∷◌, none,
  if◌then◌else◌, ltb, ◌==◌, get_or, take,
}
use apbridge.ApmTransport.State.{apm_flow_normal, apm_flow_pause, cmd_getparam}
use apbridge.ApmSerializer.{
  ApmNotice, ap_receive, event, time_indication, ready_for_time, tx_done, param_mac_address,
  param_mote_info, param_app_info, param_clk_src, param_net_id, param_ap_status, param_get_time,
  ap_lost_notice, ap_boot_notice, error_notice, param_time, be16,
}
use apbridge.ApcClient.State.{SendHdr}
use apbridge.ApCoupler.State.{
  insert_msg, set_apm_state, client_data, client_tx_done, client_time_map, client_ap_lost,
  client_pause, client_resume, wd_disconnect, ApClockSource, internal, mngrset, GpsStatus,
  gps_st_sync, World, Coupler, systime_empty, emit, emit_if,
}
use apbridge.ApCoupler.Send.{
  send_event_p, e_apm_boot, e_apm_reboot, e_apm_lost, e_mngr_connect, e_mngr_disconnect, e_ap_reset,
  e_ap_disconnect, send_ap_send, send_get_ap_clk_source, send_get_net_id, send_get_ap_mote_info,
  send_get_ap_app_info, send_get_ap_status, send_set_systime,
}
use apbridge.ApCoupler.Clock.{
  set_clock_source_p, handle_param_clk_src, clk_source_internal, clk_source_auto, clk_source_pps,
}

unfoldable pub disconnected : Coupler → Coupler
disconnected c = send_event_p e_mngr_disconnect (record c { is_int_clk_src = false })

unfoldable pub data_rx : World → SendHdr → List ℕ → Coupler → Coupler
data_rx w hdr payload c =
    (send_ap_send w
      (record {
        priority = hdr.priority;
        link_ctrl = hdr.is_link_info_specified;
        packet_id = hdr.tx_done_id;
        frame_id = hdr.fr_id;
        timeslot = hdr.slot;
        channel = hdr.offset;
        dest = hdr.dst;
      })
      payload c).1

unfoldable pub resume : Coupler → Coupler
resume c = emit_if c.has_transport (set_apm_state apm_flow_normal) c

unfoldable pub pause : Coupler → Coupler
pause c = emit_if c.has_transport (set_apm_state apm_flow_pause) c

unfoldable pub offline : Coupler → Coupler
offline c = emit_if c.has_transport (set_apm_state apm_flow_pause) c

unfoldable pub online : Coupler → Coupler
online c = emit_if c.has_transport (set_apm_state apm_flow_normal) c

unfoldable pub reset_ap : Coupler → Coupler
reset_ap c = send_event_p e_ap_reset c

unfoldable pub disconnect_ap : Coupler → Coupler
disconnect_ap c = send_event_p e_ap_disconnect c

unfoldable pub get_time : Coupler → Coupler
get_time c = emit_if c.has_transport (insert_msg cmd_getparam (param_time ∷ []) false none none) c

unfoldable pub handle_ap_lost : Coupler → Coupler
handle_ap_lost c =
    let c' = record c { ap_connected = false } in
    send_event_p e_apm_lost (emit_if c.has_client client_ap_lost c')

-- `DN_API_ST_IDLE`
abbrev pub st_idle : ℕ
st_idle = 1

abbrev pub with_ap_state : ℕ → Coupler → Coupler
with_ap_state n c = record c { ap_info = record c.ap_info { ap_state = n } }

unfoldable pub handle_ap_boot : World → Coupler → Coupler
handle_ap_boot w c =
    let c1 = record (send_get_net_id w (send_get_ap_clk_source w c)) { ap_connected = true } in
    with_ap_state st_idle (
      send_event_p e_apm_boot
        (send_get_ap_status w (send_get_ap_app_info w (send_get_ap_mote_info w c1))))

unfoldable pub handle_ap_reboot : World → Coupler → Coupler
handle_ap_reboot w c =
    let c1 = record (send_get_net_id w (send_get_ap_clk_source w c)) { ap_connected = true } in
    with_ap_state st_idle
      (send_event_p e_apm_reboot (send_get_ap_app_info w (send_get_ap_mote_info w c1)))

unfoldable pub handle_ap_receive : List ℕ → Coupler → Coupler
handle_ap_receive bytes c = emit_if c.has_client (client_data bytes) c

-- `AP_BLACKOUT_DURATION` in microseconds.
abbrev pub ap_blackout_duration : ℕ
ap_blackout_duration = 60 * 10 ^ 6

unfoldable pub in_blackout : Coupler → Bool
in_blackout c =
    not (c.blackout_start == systime_empty)
    && (ltb c.blackout_start c.sys_now && ltb c.sys_now (c.blackout_start + ap_blackout_duration))

abbrev pub is_internal_by_auto : ApClockSource → Bool → Bool
is_internal_by_auto mngrset is_int_clk_src = is_int_clk_src
is_internal_by_auto internal is_int_clk_src = true
is_internal_by_auto _ is_int_clk_src = false

unfoldable pub is_internal_sync : Coupler → Bool
is_internal_sync c =
    (c.ap_info.clksource == clk_source_internal)
    || ((c.ap_info.clksource == clk_source_auto)
        && is_internal_by_auto c.ap_clk_source c.is_int_clk_src)

abbrev pub is_sync : GpsStatus → Bool
is_sync gps_st_sync = true
is_sync _ = false

unfoldable pub handle_ready_for_time : World → ℕ → Coupler → Coupler
handle_ready_for_time w seq_num c =
    if in_blackout c
    then c
    else if is_internal_sync c
    then send_set_systime w 0 c
    else if c.ap_info.clksource == clk_source_pps
    then (let c' = if not c.gpsd_conn then record c { cur_gps_status = gps_st_sync } else c in
        if is_sync c'.cur_gps_status then send_set_systime w seq_num c' else c')
    else c

unfoldable pub handle_tx_done : ℕ → ℕ → Coupler → Coupler
handle_tx_done packet_id status c = emit_if c.has_client (client_tx_done packet_id (status == 0)) c

-- `MIN_VERSION`
abbrev pub min_version : List ℕ
min_version = 1 ∷ 4 ∷ 0 ∷ 81 ∷ []

-- The loop of `handleParamAppInfo`.
unfoldable pub is_too_low : List ℕ → List ℕ → Bool
is_too_low (v ∷ ver) (m ∷ least) =
    if ltb m v then false else if ltb v m then true else is_too_low ver least
is_too_low _ _ = false

-- Major, minor and patch number, and the build, which has two bytes.
abbrev pub version_of : List ℕ → List ℕ
version_of bytes = get_or bytes 0 0 ∷ get_or bytes 1 0 ∷ get_or bytes 2 0 ∷ be16 bytes 3 ∷ []

unfoldable pub handle_param_app_info : List ℕ → Coupler → Coupler
handle_param_app_info bytes c =
    let c' = record c { ap_info = record c.ap_info { app_version = bytes } } in
    if is_too_low (version_of bytes) min_version
    then emit_if c.has_wd_client wd_disconnect c'
    else c'

-- `ntoh_asn` of common/common.cpp, on at most eight bytes.
unfoldable pub ntoh_asn : List ℕ → ℕ
ntoh_asn bytes = go 0 (take 8 bytes)
  where
    go : ℕ → List ℕ → ℕ
    go result [] = result
    go result (b ∷ bytes) = go ((result * 2 ^ 8 + b) % 2 ^ 64) bytes

-- `handleParamGetTime`: the time of the answer is half a round trip ago. The clock is past that.
unfoldable pub handle_param_get_time : World → List ℕ → ℕ → Coupler → Coupler
handle_param_get_time w asn offset c =
    if c.has_transport && c.has_client
    then (let systime = c.sys_now - w.last_rsp_time c.calls / 2 in
        emit (client_time_map (systime / 10 ^ 6) (systime % 10 ^ 6) (ntoh_asn asn) offset) c)
    else c

unfoldable pub handle_ap_pause : Coupler → Coupler
handle_ap_pause c = emit_if c.has_client client_pause c

unfoldable pub handle_ap_resume : Coupler → Coupler
handle_ap_resume c = emit_if c.has_client client_resume c

-- `handleEvent`, which only asks for the state.
unfoldable pub handle_event : World → Coupler → Coupler
handle_event w c = send_get_ap_status w c

-- `handleTimeIndication`, which does nothing.
unfoldable pub handle_time_indication : List ℕ → Coupler → Coupler
handle_time_indication time_map c = c

unfoldable pub handle_param_mac_address : List ℕ → Coupler → Coupler
handle_param_mac_address mac c = record c { ap_info = record c.ap_info { mac = mac } }

unfoldable pub handle_param_mote_info : List ℕ → Coupler → Coupler
handle_param_mote_info sw_ver c = record c { ap_info = record c.ap_info { sw_version = sw_ver } }

unfoldable pub handle_param_net_id : ℕ → Coupler → Coupler
handle_param_net_id net_id c = record c { ap_info = record c.ap_info { network_id = net_id } }

unfoldable pub handle_param_ap_status : ℕ → Coupler → Coupler
handle_param_ap_status state c = with_ap_state state c

-- `handleError`, which only logs.
unfoldable pub handle_error : ℕ → ℕ → Coupler → Coupler
handle_error cmd_id rc c = c

-- What the serializer of the access point's messages hands on.
unfoldable pub handle_apm : World → ApmNotice → Coupler → Coupler
handle_apm w (ap_receive bytes) c = handle_ap_receive bytes c
handle_apm w (event e state alarms) c = handle_event w c
handle_apm w (time_indication bytes) c = handle_time_indication bytes c
handle_apm w (ready_for_time seq_num) c = handle_ready_for_time w seq_num c
handle_apm w (tx_done packet_id status) c = handle_tx_done packet_id status c
handle_apm w (param_mac_address mac) c = handle_param_mac_address mac c
handle_apm w (param_mote_info v) c = handle_param_mote_info v c
handle_apm w (param_app_info v) c = handle_param_app_info v c
handle_apm w (param_clk_src source) c = handle_param_clk_src source c
handle_apm w (param_net_id n) c = handle_param_net_id n c
handle_apm w (param_ap_status n) c = handle_param_ap_status n c
handle_apm w (param_get_time asn offset) c = handle_param_get_time w asn offset c
handle_apm w ap_lost_notice c = handle_ap_lost c
handle_apm w ap_boot_notice c = handle_ap_boot w c
handle_apm w (error_notice cmd_id rc) c = handle_error cmd_id rc c

unfoldable pub handle_apms : World → List ApmNotice → Coupler → Coupler
handle_apms w [] c = c
handle_apms w (n ∷ notices) c = handle_apms w notices (handle_apm w n c)

-- `connected`; `notices` is what the access point reports in each sleep for its clock source. The
-- flag `APC_FL_INTSYNCH_AP` is bit 0.
unfoldable pub connected : World → (ℕ → List ApmNotice) → ℕ → Coupler → Coupler
connected w notices flags c =
    let is_int = bit_and flags 1 == 1 in
    send_event_p e_mngr_connect (
      set_clock_source_p w (λ n. handle_apms w (notices n)) is_int
        (record c { is_int_clk_src = is_int }))
