-- ===== src/ApcClient/Restore.antt =====
-- A session that is taken up again in `apcConnected` of APInterface/APCClient.cpp.
use apbridge.Prelude.{
  ℕ, ◌+◌, ◌-◌, ◌%◌, ◌^◌, ◌≤◌, ◌<◌, ◌≡◌, ◌≢◌, ◌⊎◌, true, false, List, ◌∷◌, some, if◌then◌else◌, min,
  take, length,
}
use apbridge.ApcProto.{
  ApcError, apc_ok, apc_proto_ver, apc_stop_reconnection, apc_err_pktserialization,
}
use apbridge.ApcSerializer.{is_ok}
use apbridge.ApcConnector.State.{Connected, StopFlags, stop_fl_disconnect, stop_fl_offline}
use apbridge.ApcCache.{ApcCache, confirmed_seq_num, prep_for_get}
use apbridge.ApcCache.Ring.{Sent}
use apbridge.ApcCache.Replay.{recent}
use apbridge.ApcCache.Session.{Reach}
use apbridge.ApcClient.State.{
  World, Client, Event, apcclient_state_online, conn_stop, told_online, apintfid_empty,
  stop_timer_p,
}
use apbridge.ApcClient.Replay.{resent}

-- The packets that the manager has not confirmed and the cache still has.
abbrev pub unconfirmed : ApcCache → ℕ → List Sent → List (ApcError × Sent)
unconfirmed cache t history =
    recent (min (cache.last_sent_seq_num - t) (length cache.outpkts)) history

-- The manager takes up the session `id` by a connect message whose acknowledgement is `t`, one of the
-- last 2^32 packets.
pub record TakenUp (param : Connected) (id : ℕ) (history : List Sent) (t : ℕ) (c : Client)
    : Type 0 where
  pub version : param.ver ≡ apc_proto_ver
  pub session : c.intf_id ≢ apintfid_empty
  pub same_session : param.apc_id ≡ c.intf_id
  pub at : c.connector ≡ some id
  pub sent : Reach c.cache history
  pub was_sent : t ≤ c.cache.last_sent_seq_num
  pub lately : c.cache.last_sent_seq_num < t + 2 ^ 32
  pub acknowledges : param.your_seq ≡ t % 2 ^ 32

-- The cache when the replay begins.
abbrev ready_cache : Connected → Client → ApcCache
ready_cache param c = prep_for_get (confirmed_seq_num c.cache param.your_seq true).1

-- The end of a connection by an error: a serializer's ends the session.
abbrev pub end_of : ApcError → StopFlags
end_of apc_err_pktserialization = stop_fl_disconnect
end_of _ = stop_fl_offline

-- The client when a session was taken up, the packets `l` being to be sent again: all were, and it is
-- online; or some were, the last of them with an error for which the connector is stopped. The
-- cache holds the packets that it held.
pub record Restored (w : World) (id : ℕ) (l : List (ApcError × Sent)) (c c' : Client) : Type 0 where
  pub count : ℕ
  pub res : ApcError
  pub outcome :
      ((is_ok res ≡ true)
        × (c'.state ≡ apcclient_state_online)
        × (c'.events ≡ (
            if c.has_input
            then told_online ∷ resent id l (stop_timer_p c).events
            else resent id l (stop_timer_p c).events)))
      ⊎ ((is_ok res ≡ false)
          × (c'.state ≡ c.state)
          × (c'.events
              ≡ conn_stop id apc_stop_reconnection res (end_of res)
                ∷ resent id (take count l) (stop_timer_p c).events))
  pub works : ((es : List Event) → w.sends es ≡ apc_ok) → is_ok res ≡ true
  pub reach : (history : List Sent) → Reach c.cache history → Reach c'.cache history
