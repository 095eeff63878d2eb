-- ===== src/NotifThread.antt =====
-- APInterface/APCCntrlNotifThread.h and APCCntrlNotifThread.cpp: the queue through which what a
-- connector reports reaches the client, one report after the other. The lock makes each call one
-- step, and a round of the thread's loop another. A connector is known by a number.
pub mod Order
pub mod Examples
use apbridge.Prelude.{
  ℕ, ◌+◌, ◌*◌, ◌/◌, ◌-◌, Bool, true, false, not, List, [], ◌∷◌, ◌++◌, Option, none, some,
  if◌then◌else◌, ltb, length, take, replicate,
}
use apbridge.Prelude.Memory.{memcpy}
use apbridge.ApcProto.{StopReason, MsgType}
use apbridge.ApcConnector.State.{StopFlags, Connected}

-- `param_disconnected_s`
pub record Disconnected : Type 0 where
  pub flags : StopFlags
  pub reason : StopReason
  pub max_alloc_out_pkt : ℕ

-- `param_received_s`
pub record Received : Type 0 where
  pub apc_id : ℕ
  pub flags : ℕ
  pub my_seq : ℕ
  pub your_seq : ℕ
  pub type : MsgType

-- A call of `IAPCConnectorNotif`.
pub data Notice : Type 0 where
  started : ℕ → Notice
  connected : ℕ → Connected → Notice
  disconnected : ℕ → Disconnected → Notice
  received : Received → List ℕ → Notice

-- `apc_notiftype_t`
pub data NotifType : Type 0 where
  apc_na apc_start apc_connect apc_disconnect apc_msgrcvd apc_terminate : NotifType

-- The union `m_param`: the member that was written last.
pub data Param : Type 0 where
  no_param : Param
  m_connect : Connected → Param
  m_disconnect : Disconnected → Param
  m_msg : Received → Param

-- `apcnotif_t`; the payload is the whole vector, of which the first bytes count.
pub record ApcNotif : Type 0 where
  pub type : NotifType
  pub apc : Option ℕ
  pub payload : List ℕ
  pub payload_size : ℕ
  pub param : Param

-- `CAPCCtrlNotifThread`. Both lists have their back first.
pub record NotifThread : Type 0 where
  pub apc_notif_q : List ApcNotif
  pub free_apc_notif : List ApcNotif
  pub has_thread : Bool
  pub has_extern : Bool
  pub is_work : Bool

-- The constructor of `apcnotif_t`.
unfoldable pub empty_notif : ApcNotif
empty_notif = record { type = apc_na; apc = none; payload = []; payload_size = 0; param = no_param }

-- `newNotif_p`
unfoldable pub new_notif : List ApcNotif → ApcNotif × List ApcNotif
new_notif [] = (empty_notif, [])
new_notif (n ∷ free) = (n, free)

-- `freeNotif_p`
unfoldable pub free_notif : ApcNotif → NotifThread → NotifThread
free_notif n t = record t {
  free_apc_notif = record n { apc = none; type = apc_na } ∷ t.free_apc_notif;
}

-- `insertNotif_p`, whose signal wakes the thread.
unfoldable pub insert_notif : ApcNotif → NotifThread → NotifThread
insert_notif n t = record t { apc_notif_q = t.apc_notif_q ++ n ∷ [] }

unfoldable pub apc_started : ℕ → NotifThread → NotifThread
apc_started id t =
    if not t.is_work
    then t
    else (let (n, free) = new_notif t.free_apc_notif in
        insert_notif (record n { type = apc_start; apc = some id })
          (record t { free_apc_notif = free }))

unfoldable pub apc_connected : ℕ → Connected → NotifThread → NotifThread
apc_connected id param t =
    if not t.is_work
    then t
    else (let (n, free) = new_notif t.free_apc_notif in
        insert_notif (record n { type = apc_connect; apc = some id; param = m_connect param })
          (record t { free_apc_notif = free }))

unfoldable pub apc_disconnected : ℕ → Disconnected → NotifThread → NotifThread
apc_disconnected id param t =
    if not t.is_work
    then t
    else (let (n, free) = new_notif t.free_apc_notif in
        insert_notif (record n { type = apc_disconnect; apc = some id; param = m_disconnect param })
          (record t { free_apc_notif = free }))

-- `std::vector::resize` to a greater size.
unfoldable pub resize : ℕ → List ℕ → List ℕ
resize n bytes = bytes ++ replicate (n - length bytes) 0

-- The vector of a record that is used again, with room for new bytes; `~0x1F` clears five bits.
unfoldable pub room_for : List ℕ → List ℕ → List ℕ
room_for old bytes =
    if ltb (length old) (length bytes) then resize (length bytes / 32 * 32 + 0x20) old else old

unfoldable pub fill_payload : List ℕ → List ℕ → List ℕ
fill_payload old bytes = if ltb 0 (length bytes) then memcpy (room_for old bytes) 0 bytes else old

unfoldable pub message_received : Received → List ℕ → NotifThread → NotifThread
message_received param bytes t =
    if not t.is_work
    then t
    else (let (n, free) = new_notif t.free_apc_notif in
        insert_notif
          (record n {
            type = apc_msgrcvd;
            param = m_msg param;
            payload = fill_payload n.payload bytes;
            payload_size = length bytes;
          })
          (record t { free_apc_notif = free }))

-- `sendStopSignal_p`
unfoldable pub send_stop_signal : NotifThread → NotifThread
send_stop_signal t =
    let (n, free) = new_notif t.free_apc_notif in
    record t {
      apc_notif_q = record n { type = apc_terminate } ∷ t.apc_notif_q;
      free_apc_notif = free;
    }

-- The switch of `threadFun`.
unfoldable pub delivered : NotifType → Option ℕ → Param → List ℕ → Option Notice
delivered apc_start (some id) param bytes = some (started id)
delivered apc_connect (some id) (m_connect p) bytes = some (connected id p)
delivered apc_disconnect (some id) (m_disconnect p) bytes = some (disconnected id p)
delivered apc_msgrcvd apc (m_msg p) bytes = some (received p bytes)
delivered _ _ _ _ = none

unfoldable pub notice_of : ApcNotif → Option Notice
notice_of n = delivered n.type n.apc n.param (take n.payload_size n.payload)

abbrev pub is_terminate : NotifType → Bool
is_terminate apc_terminate = true
is_terminate _ = false

unfoldable pub pop : List ApcNotif → NotifThread → Option Notice × NotifThread
pop [] t = (none, t)
pop (n ∷ rest) t =
    let t' = record t { apc_notif_q = rest } in
    if is_terminate n.type
    then (none, free_notif n (record t' { is_work = false }))
    else (if t.has_extern then notice_of n else none, free_notif n t')

-- A round of `threadFun`: the call that it makes, if there is something in the queue.
unfoldable pub thread_round : NotifThread → Option Notice × NotifThread
thread_round t = if t.is_work then pop t.apc_notif_q t else (none, t)

-- `init`, and `start` whose thread comes up within ten seconds.
unfoldable pub init : NotifThread → NotifThread
init t = record t { has_extern = true; is_work = false }

unfoldable pub start : NotifThread → NotifThread
start t = record t { has_thread = true; is_work = true }

-- `stop`, once the thread has taken the signal.
unfoldable pub stop : NotifThread → Option Notice × NotifThread
stop t =
    let (notice, t') = if t.has_thread then thread_round (send_stop_signal t) else (none, t) in
    (notice, record t' { has_thread = false; apc_notif_q = []; free_apc_notif = [] })
