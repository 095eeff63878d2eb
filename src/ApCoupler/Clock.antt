-- ===== src/ApCoupler/Clock.antt =====
-- The clock source of the access point in APInterface/APCoupler.cpp.
use apbridge.Prelude.{ℕ, zero, suc, Bool, true, false, not, ◌&&◌, if◌then◌else◌, ◌==◌}
use apbridge.ApCoupler.State.{
  hw_reset_ap, wd_disconnect, start_gps, stop_gps, ApClockSource, internal, network, pps, mngrset,
  World, Coupler, clksource_none, emit_if, emit_through,
}
use apbridge.ApCoupler.Send.{send_set_ap_clk_source}

-- The constants of 6lowpan/public/dn_api_net.h.
abbrev pub clk_source_internal : ℕ
clk_source_internal = 0

abbrev pub clk_source_network : ℕ
clk_source_network = 1

abbrev pub clk_source_pps : ℕ
clk_source_pps = 2

abbrev pub clk_source_auto : ℕ
clk_source_auto = 3

abbrev pub is_pps : ApClockSource → Bool
is_pps pps = true
is_pps _ = false

abbrev pub with_clksource : ℕ → Coupler → Coupler
with_clksource n c = record c { ap_info = record c.ap_info { clksource = n } }

-- The sleeps of `setClockSource_p` until the access point has told its source; `meanwhile` is what
-- other threads do in each of them.
unfoldable pub wait_clksource : ℕ → (ℕ → Coupler → Coupler) → Coupler → Coupler
wait_clksource zero meanwhile c = c
wait_clksource (suc n) meanwhile c =
    if c.ap_info.clksource == clksource_none then wait_clksource n meanwhile (meanwhile n c) else c

-- The permanent property that has to be set, or none.
unfoldable pub permanent_source : ApClockSource → ℕ → ℕ
permanent_source pps current = clk_source_pps
permanent_source _ current = if current == clk_source_auto then clksource_none else clk_source_auto

abbrev pub is_internal : ApClockSource → Bool → Bool
is_internal mngrset is_int_clk = is_int_clk
is_internal internal is_int_clk = true
is_internal _ is_int_clk = false

-- The source for the time being.
unfoldable pub current_source : ApClockSource → Bool → ℕ
current_source source is_int_clk =
    if is_internal source is_int_clk then clk_source_internal else clk_source_network

-- `setClockSource_p` behind its sleeps.
unfoldable pub choose_source : World → Bool → Coupler → Coupler
choose_source w is_int_clk c =
    if c.ap_info.clksource == clksource_none
    then emit_through c.has_transport hw_reset_ap c
    else if is_pps c.ap_clk_source && (c.ap_info.clksource == clk_source_pps)
    then c
    else (let permanent = permanent_source c.ap_clk_source c.ap_info.clksource in
        if not (permanent == clksource_none)
        then send_set_ap_clk_source w permanent true (with_clksource permanent c)
        else (let current = current_source c.ap_clk_source is_int_clk in
            send_set_ap_clk_source w current false (with_clksource current c)))

-- `setClockSource_p`
unfoldable pub set_clock_source_p : World → (ℕ → Coupler → Coupler) → Bool → Coupler → Coupler
set_clock_source_p w meanwhile is_int_clk c =
    choose_source w is_int_clk (wait_clksource 100 meanwhile c)

-- `handleSetClkSrcResponse_p`
unfoldable pub handle_set_clk_src_response_p : Coupler → Coupler
handle_set_clk_src_response_p c = emit_through c.has_transport hw_reset_ap c

-- `handleSetClkSrcErrorResponse_p`
unfoldable pub handle_set_clk_src_error_response_p : Coupler → Coupler
handle_set_clk_src_error_response_p c = emit_if c.has_wd_client wd_disconnect c

-- `handleParamClkSrc`
unfoldable pub handle_param_clk_src : ℕ → Coupler → Coupler
handle_param_clk_src ap_clk_src c =
    let c' = with_clksource ap_clk_src c in
    if (ap_clk_src == clk_source_pps) && is_pps c.ap_clk_source
    then (if c.gpsd_conn then emit_through c.has_gps start_gps c' else c')
    else (if c.gpsd_conn then emit_through c.has_gps stop_gps c' else c')

abbrev pub same_source : ApClockSource → ApClockSource → Bool
same_source internal internal = true
same_source network network = true
same_source pps pps = true
same_source mngrset mngrset = true
same_source _ _ = false

-- `setClockSrource`
unfoldable pub set_clock_srource : ApClockSource → Coupler → Coupler
set_clock_srource new_clk_src c =
    if same_source new_clk_src c.ap_clk_source
    then c
    else emit_through c.has_transport hw_reset_ap (record c { ap_clk_source = new_clk_src })
