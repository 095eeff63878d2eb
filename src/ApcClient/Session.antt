-- ===== src/ApcClient/Session.antt =====
-- The calls of a `CAPCClient` of APInterface/APCClient.cpp in any order.
use apbridge.Prelude.{ℕ, ◌≡◌, ◌≢◌, Bool, List, some}
use apbridge.ApcProto.{MsgType}
use apbridge.ApcCache.{ApcCache}
use apbridge.NotifThread.{Notice}
use apbridge.ApcClient.State.{World, Client, apcclient_state_offline, new_client}
use apbridge.ApcClient.Send.{send_data_p}
use apbridge.ApcClient.Notices.{handle_notice}
use apbridge.ApcClient.Control.{StartParam, open_client, start, stop, reconnect_timer_fun_p}

-- What can happen to a client: the calls of its user, the reports of the connectors, the timer, and the
-- clock. A client is started only when it is not offline.
pub data Step (w : World) : Client → Client → Type 0 where
  opened :
      (c : Client) (has_input : Bool) (name : List ℕ) → Step w c (open_client w has_input name c).1
  began :
      (c : Client) (param : StartParam)
      → c.state ≢ apcclient_state_offline
      → Step w c (start w param c).1
  sent : (c : Client) (type : MsgType) (p1 p2 : List ℕ) → Step w c (send_data_p w type p1 p2 c).1
  noticed : (c : Client) (n : Notice) (c' : Client) → handle_notice w n c ≡ some c' → Step w c c'
  fired : (c : Client) (error : Bool) → Step w c (reconnect_timer_fun_p w error c)
  ended :
      (c : Client) (notices : List Notice) (c' : Client) → stop w notices c ≡ some c' → Step w c c'
  passed : (c : Client) (now : ℕ) → Step w c (record c { now = now })

pub data Reach (w : World) : Client → Type 0 where
  new : (cache : ApcCache) (now : ℕ) → Reach w (new_client cache now)
  next : (c c' : Client) → Reach w c → Step w c c' → Reach w c'
