-- ===== src/ApCoupler/Send.antt =====
-- The commands that APInterface/APCoupler.cpp puts into the queue of the transport, and its events.
-- The results of most of them are not looked at, and are left out.
use Prim.Native.Nat.{bit_and, bit_or}
use apbridge.Prelude.{
  ℕ, ◌+◌, ◌-◌, ◌/◌, ◌%◌, ◌^◌, Bool, true, false, not, List, [], ◌∷◌, ◌++◌, Option, none, some,
  if◌then◌else◌, ◌==◌,
}
use apbridge.ApcProto.{ApcError, apc_ok, apc_err_init}
use apbridge.ApmTransport.State.{cmd_setparam, cmd_getparam, param_netid}
use apbridge.ApmSerializer.{
  param_moteinfo, param_time, param_appinfo, param_ap_clksrc, param_ap_status_id,
}
use apbridge.ApcClient.State.{Priority, apintf_low, apintf_med, apintf_hi, apintf_cmd}
use apbridge.ApCoupler.State.{
  insert_msg, disable_join, Callback, handle_set_clk_src_response,
  handle_set_clk_src_error_response, World, Coupler, clksource_none, emit, emit_if, emit_through,
}

-- The events of the state machine are bits.
abbrev pub e_apm_boot : ℕ
e_apm_boot = 0x1

abbrev pub e_apm_reboot : ℕ
e_apm_reboot = 0x2

abbrev pub e_apm_lost : ℕ
e_apm_lost = 0x4

abbrev pub e_mngr_connect : ℕ
e_mngr_connect = 0x8

abbrev pub e_mngr_disconnect : ℕ
e_mngr_disconnect = 0x10

abbrev pub e_timeout : ℕ
e_timeout = 0x20

abbrev pub e_ap_reset : ℕ
e_ap_reset = 0x40

abbrev pub e_ap_disconnect : ℕ
e_ap_disconnect = 0x80

abbrev pub e_stop : ℕ
e_stop = 0x200

-- One of the events of a mask.
abbrev pub has_any : ℕ → ℕ → Bool
has_any e mask = not (bit_and e mask == 0)

-- The events at which the access point is no longer let into the network.
abbrev pub ends_join : ℕ
ends_join = e_mngr_disconnect + e_apm_lost + e_apm_reboot + e_ap_disconnect + e_ap_reset

-- `sendEvent_p`
unfoldable pub send_event_p : ℕ → Coupler → Coupler
send_event_p e c =
    let c' = if has_any e ends_join then emit_through c.has_transport disable_join c else c in
    record c' { events = bit_or c'.events e }

abbrev pub cmd_ap_send : ℕ
cmd_ap_send = 0x23

-- An `insertMsg`, if there is a transport.
unfoldable pub insert :
    World → ℕ → List ℕ → Option Callback → Option Callback → Coupler → ApcError × Coupler
insert w cmd_id bytes res err c =
    if c.has_transport
    then (w.inserts c.calls, emit (insert_msg cmd_id bytes false res err) c)
    else (apc_err_init, c)

-- `sendCmd`
unfoldable pub send_cmd :
    World → ℕ → List ℕ → Option Callback → Option Callback → Coupler → ApcError × Coupler
send_cmd w cmd_id bytes res err c = insert w cmd_id bytes res err c

-- The bytes of `dn_api_loc_apsend_ctrl_t`, in network order.
pub record ApSendCtrl : Type 0 where
  pub priority : Priority
  pub link_ctrl : Bool
  pub packet_id : ℕ
  pub frame_id : ℕ
  pub timeslot : ℕ
  pub channel : ℕ
  pub dest : ℕ

abbrev pub priority_bits : Priority → ℕ
priority_bits apintf_low = 0
priority_bits apintf_med = 1
priority_bits apintf_hi = 2
priority_bits apintf_cmd = 3

abbrev pub to_be16 : ℕ → List ℕ
to_be16 n = n / 2 ^ 8 % 2 ^ 8 ∷ n % 2 ^ 8 ∷ []

abbrev pub to_be32 : ℕ → List ℕ
to_be32 n = to_be16 (n / 2 ^ 16) ++ to_be16 n

abbrev pub to_be64 : ℕ → List ℕ
to_be64 n = to_be32 (n / 2 ^ 32) ++ to_be32 n

-- The first byte has the priority in bits 0 and 1 and the link control in bit 2.
unfoldable pub ctrl_bytes : ApSendCtrl → List ℕ
ctrl_bytes h =
    (priority_bits h.priority + (if h.link_ctrl then 4 else 0))
    ∷ (to_be16 h.packet_id
        ++ (h.frame_id % 2 ^ 8 ∷ (to_be32 h.timeslot ++ (h.channel % 2 ^ 8 ∷ to_be16 h.dest))))

-- `sendApSend`
unfoldable pub send_ap_send : World → ApSendCtrl → List ℕ → Coupler → ApcError × Coupler
send_ap_send w hdr bytes c = insert w cmd_ap_send (ctrl_bytes hdr ++ bytes) none none c

-- `sendSetParam`
unfoldable pub send_set_param :
    World → ℕ → List ℕ → Option Callback → Option Callback → Coupler → ApcError × Coupler
send_set_param w param_id bytes res err c = insert w cmd_setparam (param_id ∷ bytes) res err c

-- `sendSetApClkSource`
unfoldable pub send_set_ap_clk_source : World → ℕ → Bool → Coupler → Coupler
send_set_ap_clk_source w clk_source is_reset_ap c =
    (send_set_param w param_ap_clksrc (clk_source ∷ [])
      (if is_reset_ap then some handle_set_clk_src_response else none)
      (some handle_set_clk_src_error_response) c).1

-- `sendGetParam`
unfoldable pub send_get_param : World → ℕ → Coupler → ApcError × Coupler
send_get_param w param_id c =
    if c.has_transport
    then (w.inserts c.calls, emit (insert_msg cmd_getparam (param_id ∷ []) false none none) c)
    else (apc_ok, c)

unfoldable pub send_get_ap_net_id : World → Coupler → Coupler
send_get_ap_net_id w c = (send_get_param w param_netid c).1

unfoldable pub send_get_ap_mote_info : World → Coupler → Coupler
send_get_ap_mote_info w c = (send_get_param w param_moteinfo c).1

unfoldable pub send_get_ap_app_info : World → Coupler → Coupler
send_get_ap_app_info w c = (send_get_param w param_appinfo c).1

unfoldable pub send_get_ap_status : World → Coupler → Coupler
send_get_ap_status w c = (send_get_param w param_ap_status_id c).1

unfoldable pub send_get_net_id : World → Coupler → Coupler
send_get_net_id w c = (send_get_param w param_netid c).1

unfoldable pub send_get_ap_clk_source : World → Coupler → Coupler
send_get_ap_clk_source w c =
    (send_get_param w param_ap_clksrc
      (record c { ap_info = record c.ap_info { clksource = clksource_none } })).1

-- The payload of `sendSetSystime`: `dn_api_set_time_t`, in network order.
unfoldable pub set_time_bytes : ℕ → ℕ → ℕ → List ℕ
set_time_bytes seq_num leap_secs sys_now =
    param_time ∷ seq_num ∷ (to_be64 (sys_now / 10 ^ 6 - leap_secs) ++ to_be32 (sys_now % 10 ^ 6))

-- `sendSetSystime`, with high priority. The clock is past the leap seconds since 1970.
unfoldable pub send_set_systime : World → ℕ → Coupler → Coupler
send_set_systime w seq_num c =
    emit_if c.has_transport
      (insert_msg cmd_setparam (set_time_bytes seq_num (w.leap_secs c.sys_now) c.sys_now) true none
        none)
      c
