-- ===== src/ApmTransport/Session.antt =====
-- The calls of a `CAPMTransport` of APInterface/APMTransport.cpp in any order.
use apbridge.Prelude.{ℕ, inl, refl, Bool, List, Option, arith}
use apbridge.ApmTransport.State.{Params, Transport, ErrorResponse, FlowControl, new_transport}
use apbridge.ApmTransport.Send.{insert_msg, handle_retry_timeout, hw_reset_ap}
use apbridge.ApmTransport.Join.{
  handle_ping_timeout, handle_queue_check_timeout, disconnect_ap, disable_join, enable_join,
  handle_ap_lost, handle_ap_boot, stop, set_abort, set_apm_state, clear_apm_statistics,
}
use apbridge.ApmTransport.Receive.{Handlers, data_received}
use apbridge.ApmTransport.Invariant.{
  Inv, told_normal, alike-Inv, insert_msg-Inv, send_ap_lost_notif-Inv,
}
use apbridge.ApmTransport.Invariant.Timeout.{handle_retry_timeout-Inv, hw_reset_ap-Inv}
use apbridge.ApmTransport.Invariant.Join.{
  handle_ping_timeout-Inv, handle_queue_check_timeout-Inv, disconnect_ap-Inv, disable_join-Inv,
  enable_join-Inv, handle_ap_boot-Inv, stop-Inv,
}
use apbridge.ApmTransport.Invariant.Receive.{Keeps, data_received-Inv}

module _ (h : Handlers) where
  -- What can happen to a transport: its public calls, its timers, a packet, and the world.
  pub data Step : Transport → Transport → Type 0 where
    inserted :
        (id : ℕ) (bytes : List ℕ) (high : Bool) (res : Option ℕ) (err : Option ErrorResponse)
        (synch : Bool) (t : Transport)
        → Step t (insert_msg id bytes high res err synch t).1
    received : (bytes : List ℕ) (t : Transport) → Step t (data_received h bytes t).1
    retry_timeout : (error : Bool) (t : Transport) → Step t (handle_retry_timeout error t)
    ping_timeout : (error : Bool) (t : Transport) → Step t (handle_ping_timeout error t)
    queue_timeout : (error : Bool) (t : Transport) → Step t (handle_queue_check_timeout error t)
    disconnected : (synch : Bool) (t : Transport) → Step t (disconnect_ap synch t)
    join_disabled : (t : Transport) → Step t (disable_join t)
    join_enabled : (net_id : ℕ) (t : Transport) → Step t (enable_join net_id t)
    lost : (t : Transport) → Step t (handle_ap_lost t)
    ap_booted : (t : Transport) → Step t (handle_ap_boot t)
    hw_reset : (t : Transport) → Step t (hw_reset_ap t)
    stopped : (t : Transport) → Step t (stop t)
    abort_set : (enabled : Bool) (t : Transport) → Step t (set_abort enabled t)
    flow_set : (state : FlowControl) (t : Transport) → Step t (set_apm_state state t)
    stats_cleared : (t : Transport) → Step t (clear_apm_statistics t)
    world :
        (now : ℕ) (is_ready : Bool) (reopen_calls beyond : ℕ) (t : Transport)
        → Step t (record t {
          now = now;
          is_ready = is_ready;
          reopen_calls = reopen_calls;
          beyond = beyond;
        })

  pub data Reach (params : Params) : Transport → Type 0 where
    opened :
        (reconnect : Bool) (now : ℕ) (is_ready : Bool) (reopen_calls beyond : ℕ)
        → Reach params (new_transport params reconnect now is_ready reopen_calls beyond)
    step : (t t' : Transport) → Reach params t → Step t t' → Reach params t'

  module _ (keeps : Keeps Inv h) where
    set_abort-Inv : (enabled : Bool) (t : Transport) → Inv t → Inv (set_abort enabled t)
    unfolding set_abort
    set_abort-Inv enabled t v = alike-Inv t _ refl refl refl refl refl refl refl v

    set_apm_state-Inv : (state : FlowControl) (t : Transport) → Inv t → Inv (set_apm_state state t)
    unfolding set_apm_state
    set_apm_state-Inv state t v = alike-Inv t _ refl refl refl refl refl refl refl v

    clear_apm_statistics-Inv : (t : Transport) → Inv t → Inv (clear_apm_statistics t)
    unfolding clear_apm_statistics
    clear_apm_statistics-Inv t v = alike-Inv t _ refl refl refl refl refl refl refl v

    handle_ap_lost-Inv : (t : Transport) → Inv t → Inv (handle_ap_lost t)
    unfolding handle_ap_lost
    handle_ap_lost-Inv t v = send_ap_lost_notif-Inv t v

    Step-Inv : (t t' : Transport) → Step t t' → Inv t → Inv t'
    Step-Inv _ _ (inserted id bytes high res err synch t) v =
        insert_msg-Inv id bytes high res err synch t v
    Step-Inv _ _ (received bytes t) v = data_received-Inv h keeps bytes t v
    Step-Inv _ _ (retry_timeout error t) v = handle_retry_timeout-Inv error t v
    Step-Inv _ _ (ping_timeout error t) v = handle_ping_timeout-Inv error t v
    Step-Inv _ _ (queue_timeout error t) v = handle_queue_check_timeout-Inv error t v
    Step-Inv _ _ (disconnected synch t) v = disconnect_ap-Inv synch t v
    Step-Inv _ _ (join_disabled t) v = disable_join-Inv t v
    Step-Inv _ _ (join_enabled net_id t) v = enable_join-Inv net_id t v
    Step-Inv _ _ (lost t) v = handle_ap_lost-Inv t v
    Step-Inv _ _ (ap_booted t) v = handle_ap_boot-Inv t
    Step-Inv _ _ (hw_reset t) v = hw_reset_ap-Inv t v
    Step-Inv _ _ (stopped t) v = stop-Inv t v
    Step-Inv _ _ (abort_set enabled t) v = set_abort-Inv enabled t v
    Step-Inv _ _ (flow_set state t) v = set_apm_state-Inv state t v
    Step-Inv _ _ (stats_cleared t) v = clear_apm_statistics-Inv t v
    Step-Inv _ _ (world now is_ready reopen_calls beyond t) v =
        alike-Inv t _ refl refl refl refl refl refl refl v

    opened-Inv :
        (params : Params) (reconnect : Bool) (now : ℕ) (is_ready : Bool) (reopen_calls beyond : ℕ)
        → Inv (new_transport params reconnect now is_ready reopen_calls beyond)
    unfolding new_transport told_normal
    opened-Inv params reconnect now is_ready reopen_calls beyond = record {
      room = omega arith;
      in_flight = λ p. cc;
      response_id = inl refl;
      notification_id = inl refl;
      flow = refl;
    }

    pub Reach-Inv : (params : Params) (t : Transport) → Reach params t → Inv t
    Reach-Inv params _ (opened reconnect now is_ready reopen_calls beyond) =
        opened-Inv params reconnect now is_ready reopen_calls beyond
    Reach-Inv params _ (step t t' r s) = Step-Inv t t' s (Reach-Inv params t r)
