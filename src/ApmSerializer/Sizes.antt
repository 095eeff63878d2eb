-- ===== src/ApmSerializer/Sizes.antt =====
-- What `handleCmd` of APInterface/APMSerializer.cpp hands on was in the buffer.
use apbridge.Prelude.{
  ℕ, ◌≤◌, ◌<◌, List, Option, none, some, arith, ltb, ◌==◌, length, ltb-false→le, Bool-cases, inl,
  inr,
}
use apbridge.ApmSerializer.{
  ApmNotice, ap_receive, event, time_indication, ready_for_time, tx_done, param_mac_address,
  param_mote_info, param_app_info, param_clk_src, param_net_id, param_ap_status, param_get_time,
  ap_lost_notice, ap_boot_notice, error_notice, ApmSerializer, buffer_cast, handle_get_param,
  handle_events, handle_other, handle_cmd, events_size, loc_notif_events, txdone_size, time_size,
  ready_for_time_size, rsp_macaddr_size, rsp_moteinfo_size, rsp_appinfo_size, rsp_byte_size,
  rsp_netid_size, rsp_time_size,
}

-- The bytes of the structure that a call hands on.
unfoldable pub size_of : ApmNotice → ℕ
size_of (ap_receive bytes) = length bytes
size_of (event e s a) = events_size
size_of (time_indication bytes) = time_size
size_of (ready_for_time n) = ready_for_time_size
size_of (tx_done n s) = txdone_size
size_of (param_mac_address bytes) = rsp_macaddr_size
size_of (param_mote_info bytes) = rsp_moteinfo_size
size_of (param_app_info bytes) = rsp_appinfo_size
size_of (param_clk_src n) = rsp_byte_size
size_of (param_net_id n) = rsp_netid_size
size_of (param_ap_status n) = rsp_byte_size
size_of (param_get_time bytes n) = rsp_time_size
size_of ap_lost_notice = events_size
size_of ap_boot_notice = events_size
size_of (error_notice id rc) = 0

unfoldable pub Fits : List ℕ → Option ApmNotice → Type 0
Fits bytes none = Unit
Fits bytes (some n) = size_of n ≤ length bytes

handle_get_param-Fits : (beyond : ℕ) (bytes : List ℕ) → Fits bytes (handle_get_param beyond bytes)
unfolding handle_get_param buffer_cast size_of Fits
handle_get_param-Fits beyond bytes = ground arith

handle_other-Fits :
    (beyond cmd_id : ℕ) (bytes : List ℕ) → Fits bytes (handle_other beyond cmd_id bytes)
unfolding handle_other buffer_cast size_of Fits
handle_other-Fits beyond cmd_id bytes = ground (arith, handle_get_param-Fits beyond bytes)

handle_events-Fits : (bytes : List ℕ) (s : ApmSerializer) → Fits bytes (handle_events bytes s).0
unfolding handle_events size_of Fits
handle_events-Fits bytes s = elim (Bool-cases (ltb (length bytes) events_size)) [
  | inl short ↦ rw short tt
  | inr long ↦ let enough = ltb-false→le _ _ long in rw long (ground (arith, enough))
]

handle_events-low :
    (bytes : List ℕ) (s : ApmSerializer)
    → s.boot_counter < 11
    → (handle_events bytes s).1.boot_counter < 11
unfolding handle_events
handle_events-low bytes s low = ground (arith, low)

-- Whatever bytes come with a command or notification, what is handed on to the coupler is a structure
-- that is no longer than those bytes, and the counter of boots stays below eleven.
pub handle_cmd-Fits :
    (beyond cmd_id : ℕ) (bytes : List ℕ) (s : ApmSerializer)
    → s.boot_counter < 11
    → Fits bytes (handle_cmd beyond cmd_id bytes s).1
      × ((handle_cmd beyond cmd_id bytes s).2.boot_counter < 11)
unfolding handle_cmd handle_events
handle_cmd-Fits beyond cmd_id bytes s low = elim (Bool-cases (cmd_id == loc_notif_events)) [
  | inl events ↦ rw events (handle_events-Fits bytes s, handle_events-low bytes s low)
  | inr other ↦ rw other (handle_other-Fits beyond cmd_id bytes, omega arith)
]
