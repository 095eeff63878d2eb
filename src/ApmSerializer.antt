-- ===== src/ApmSerializer.antt =====
-- `CAPMSerializer` of APInterface/APMSerializer.h and APMSerializer.cpp: what the commands and
-- notifications of the access point tell the coupler. A call of `m_notifHandler` is the last thing
-- that a method does, and is returned beside the state.
pub mod Boots
pub mod Sizes
pub mod Examples
use Prim.Native.Nat.{bit_and}
use apbridge.Prelude.{
  ℕ, ◌+◌, ◌*◌, ◌%◌, ◌^◌, Bool, List, [], ◌∷◌, ◌++◌, Option, none, some, if◌then◌else◌, ltb, ◌==◌,
  not, length, get_or, take, drop,
}
use apbridge.Prelude.Memory.{memcpy}
use apbridge.ApcProto.{ApcError, apc_ok, apc_err_size}
use apbridge.ApmTransport.State.{cmd_getparam, notif_ap_receive, param_macaddr, param_netid}

-- The calls of `IAPMNotifHandler`, with the fields of the structures that are handed over.
pub data ApmNotice : Type 0 where
  ap_receive : List ℕ → ApmNotice
  event : ℕ → ℕ → ℕ → ApmNotice
  time_indication : List ℕ → ApmNotice
  ready_for_time : ℕ → ApmNotice
  tx_done : ℕ → ℕ → ApmNotice
  param_mac_address param_mote_info param_app_info : List ℕ → ApmNotice
  param_clk_src param_net_id param_ap_status : ℕ → ApmNotice
  param_get_time : List ℕ → ℕ → ApmNotice
  ap_lost_notice ap_boot_notice : ApmNotice
  error_notice : ℕ → ℕ → ApmNotice

-- `CAPMSerializer`. The input buffer and its two counts are not used.
pub record ApmSerializer : Type 0 where
  pub boot_counter : ℕ

abbrev pub apm_max_boot_events : ℕ
apm_max_boot_events = 10

-- The identifiers of 6lowpan/public/dn_api_common.h.
abbrev pub loc_notif_time : ℕ
loc_notif_time = 0x0D

abbrev pub loc_notif_events : ℕ
loc_notif_events = 0x0F

abbrev pub loc_notif_txdone : ℕ
loc_notif_txdone = 0x25

abbrev pub loc_notif_ready_for_time : ℕ
loc_notif_ready_for_time = 0x2C

abbrev pub param_moteinfo : ℕ
param_moteinfo = 0x0C

abbrev pub param_time : ℕ
param_time = 0x0F

abbrev pub param_appinfo : ℕ
param_appinfo = 0x1E

abbrev pub param_ap_clksrc : ℕ
param_ap_clksrc = 0x26

abbrev pub param_ap_status_id : ℕ
param_ap_status_id = 0x28

-- `sizeof` of the packed structures.
abbrev pub events_size : ℕ
events_size = 4 + 1 + 4

abbrev pub txdone_size : ℕ
txdone_size = 2 + 1

abbrev pub time_size : ℕ
time_size = 4 + 12 + 5 + 2 + 2

abbrev pub ready_for_time_size : ℕ
ready_for_time_size = 1

abbrev pub rsp_macaddr_size : ℕ
rsp_macaddr_size = 2 + 8

abbrev pub rsp_moteinfo_size : ℕ
rsp_moteinfo_size = 2 + 1 + 8 + 1 + 1 + 5 + 1

abbrev pub rsp_appinfo_size : ℕ
rsp_appinfo_size = 2 + 2 + 1 + 5

abbrev pub rsp_byte_size : ℕ
rsp_byte_size = 2 + 1

abbrev pub rsp_netid_size : ℕ
rsp_netid_size = 2 + 2

abbrev pub rsp_time_size : ℕ
rsp_time_size = 2 + 4 + 12 + 5 + 2

abbrev pub be16 : List ℕ → ℕ → ℕ
be16 xs n = get_or xs n 0 * 2 ^ 8 + get_or xs (n + 1) 0

abbrev pub be32 : List ℕ → ℕ → ℕ
be32 xs n = be16 xs n * 2 ^ 16 + be16 xs (n + 2)

-- `bufferCast_p`: what a structure of `size` bytes tells, if the buffer has that many.
unfoldable pub buffer_cast : ℕ → List ℕ → ApmNotice → Option ApmNotice
buffer_cast size bytes notice = if ltb (length bytes) size then none else some notice

-- `handleGetParam`. `beyond` is the byte that stands where the buffer is too short for a parameter id.
unfoldable pub handle_get_param : ℕ → List ℕ → Option ApmNotice
handle_get_param beyond bytes =
    let param_id = get_or bytes 1 beyond in
    if param_id == param_macaddr
    then buffer_cast rsp_macaddr_size bytes (param_mac_address (take 8 (drop 2 bytes)))
    else if param_id == param_moteinfo
    then buffer_cast rsp_moteinfo_size bytes (param_mote_info (take 5 (drop 13 bytes)))
    else if param_id == param_appinfo
    then buffer_cast rsp_appinfo_size bytes (param_app_info (take 5 (drop 5 bytes)))
    else if param_id == param_ap_clksrc
    then buffer_cast rsp_byte_size bytes (param_clk_src (get_or bytes 2 0))
    else if param_id == param_netid
    then buffer_cast rsp_netid_size bytes (param_net_id (be16 bytes 2))
    else if param_id == param_time
    then buffer_cast rsp_time_size bytes (param_get_time (take 5 (drop 18 bytes)) (be16 bytes 23))
    else if param_id == param_ap_status_id
    then buffer_cast rsp_byte_size bytes (param_ap_status (get_or bytes 2 0))
    else none

-- `DN_API_LOC_EV_BOOT` is bit 0 of the events.
abbrev pub has_boot : List ℕ → Bool
has_boot bytes = not (bit_and (be32 bytes 0) 1 == 0)

-- The events: a boot is counted, and after ten in a row the next is a loss.
unfoldable pub handle_events : List ℕ → ApmSerializer → Option ApmNotice × ApmSerializer
handle_events bytes s =
    if ltb (length bytes) events_size
    then (none, s)
    else if has_boot bytes
    then (let count = (s.boot_counter + 1) % 2 ^ 16 in
        if ltb apm_max_boot_events count
        then (some ap_lost_notice, record s { boot_counter = 0 })
        else (some ap_boot_notice, record s { boot_counter = count }))
    else (
      some (event (be32 bytes 0) (get_or bytes 4 0) (be32 bytes 5)),
      record s { boot_counter = 0 },
    )

-- The other cases of the switch of `handleCmd`. The answer to a GPS status is only logged.
unfoldable pub handle_other : ℕ → ℕ → List ℕ → Option ApmNotice
handle_other beyond cmd_id bytes =
    if cmd_id == loc_notif_txdone
    then buffer_cast txdone_size bytes (tx_done (be16 bytes 0) (get_or bytes 2 0))
    else if cmd_id == notif_ap_receive
    then some (ap_receive bytes)
    else if cmd_id == cmd_getparam
    then handle_get_param beyond bytes
    else if cmd_id == loc_notif_time
    then buffer_cast time_size bytes (time_indication (take time_size bytes))
    else if cmd_id == loc_notif_ready_for_time
    then buffer_cast ready_for_time_size bytes (ready_for_time (get_or bytes 0 0))
    else none

-- `handleCmd`, which always returns `APC_OK`.
unfoldable pub handle_cmd :
    ℕ → ℕ → List ℕ → ApmSerializer → ApcError × Option ApmNotice × ApmSerializer
handle_cmd beyond cmd_id bytes s =
    if cmd_id == loc_notif_events
    then (let (notice, s') = handle_events bytes s in (apc_ok, notice, s'))
    else (apc_ok, handle_other beyond cmd_id bytes, record s { boot_counter = 0 })

-- `handleError`
unfoldable pub handle_error : ℕ → ℕ → ApmNotice
handle_error cmd_id rc = error_notice cmd_id rc

abbrev pub apt_hdr_size : ℕ
apt_hdr_size = 3

-- `prepMsg`, with the buffer and the size that goes through `pMsgSize`. The flags of the header are
-- left as they were, and `convert` does nothing.
unfoldable pub prep_msg : ℕ → List ℕ → List ℕ → ℕ → ApcError × ℕ × List ℕ
prep_msg cmd_id payload msg max_size =
    let size = length payload + apt_hdr_size in
    if ltb max_size size then (apc_err_size, size, msg) else (
      apc_ok,
      size,
      memcpy (memcpy msg 0 (cmd_id ∷ length payload % 2 ^ 8 ∷ [])) apt_hdr_size payload,
    )
