-- ===== src/ApcClient/Invariant.antt =====
-- What every call of APInterface/APCClient.cpp keeps: when the timer runs, and when there is a session.
pub mod Disconnect
pub mod Connect
use apbridge.Prelude.{
  ℕ, zero, suc, ◌+◌, ◌-◌, ◌<◌, ◌≡◌, ◌≢◌, ◌⊎◌, inl, inr, refl, sym, ap, ◌∙◌, subst, Bool, true,
  false, not, ◌||◌, ◌&&◌, List, [], ◌∷◌, Option, none, some, arith, if◌then◌else◌, ◌==◌, ltb,
  Bool-cases, Option-cases, if_both,
}
use apbridge.ApcProto.{ApcError, apc_ok, MsgType, StopReason, apc_stop_timeout}
use apbridge.ApcSerializer.{is_ok}
use apbridge.ApcConnector.State.{Connected, StopFlags}
use apbridge.ApcCache.{get_next_packet, CachePkt, confirmed_seq_num, prep_for_get}
use apbridge.NotifThread.{
  Notice, started, connected, disconnected, received, Disconnected, Received,
}
use apbridge.ApcClient.State.{
  World, Client, Event, ClientState, apcclient_state_online, apcclient_state_offline,
  apcclient_state_disconnect, apcclient_state_init, emit, tell, time_empty, apintfid_empty,
  start_timer_p, stop_timer_p,
}
use apbridge.ApcClient.Send.{send_data_p, send_in, send_online, send_through, stop_after}
use apbridge.ApcClient.Notices.{
  message_received, dispatch, note_seq, apc_started, resend, replay, restore, finish_connect, begun,
  apc_connected, is_refused, apc_disconnected, go_offline, handle_notice, is_immediate,
}

-- The timer runs only while the client is offline, towards a deadline, and a client that is online
-- has a session.
pub record ClientInv (c : Client) : Type 0 where
  pub timer : c.has_reconnect_timer ≡ true → c.state ≡ apcclient_state_offline
  pub deadline : c.has_reconnect_timer ≡ true → time_empty < c.disconnect_time
  pub offline : time_empty < c.disconnect_time → c.state ≡ apcclient_state_offline
  pub session : c.state ≡ apcclient_state_online → c.intf_id ≢ apintfid_empty

-- The fields that the invariant reads are the same.
pub record Alike (c c' : Client) : Type 0 where
  pub state : c'.state ≡ c.state
  pub intf_id : c'.intf_id ≡ c.intf_id
  pub timer : c'.has_reconnect_timer ≡ c.has_reconnect_timer
  pub time : c'.disconnect_time ≡ c.disconnect_time

pub Alike-ClientInv : (c c' : Client) → Alike c c' → ClientInv c → ClientInv c'
Alike-ClientInv c c' a v = record {
  timer = λ p. a.state ∙ v.timer (sym a.timer ∙ p);
  deadline = λ p. rw a.time (v.deadline (sym a.timer ∙ p));
  offline = λ p. a.state ∙ v.offline (subst (λ (n : ℕ). time_empty < n) a.time p);
  session = λ p e. v.session (sym a.state ∙ p) (sym a.intf_id ∙ e);
}

pub emit-ClientInv : (e : Event) (c : Client) → ClientInv c → ClientInv (emit e c)
emit-ClientInv e c v =
    Alike-ClientInv c _ (record { state = refl; intf_id = refl; timer = refl; time = refl }) v

pub Alike-refl : (c : Client) → Alike c c
Alike-refl c = record { state = refl; intf_id = refl; timer = refl; time = refl }

pub Alike-trans : (a b c : Client) → Alike a b → Alike b c → Alike a c
Alike-trans a b c p q = record {
  state = q.state ∙ p.state;
  intf_id = q.intf_id ∙ p.intf_id;
  timer = q.timer ∙ p.timer;
  time = q.time ∙ p.time;
}

pub stop_after-Alike :
    (reason : StopReason) (res : ApcError) (id : ℕ) (c : Client)
    → Alike c (stop_after reason res id c)
unfolding stop_after
stop_after-Alike reason res id c = ground arith

send_in-Alike :
    (w : World) (type : MsgType) (p1 p2 : List ℕ) (s : ClientState) (c : Client)
    → Alike c (send_in w type p1 p2 s c).1
unfolding send_in send_online send_through
send_in-Alike w type p1 p2 apcclient_state_init c = Alike-refl c
send_in-Alike w type p1 p2 apcclient_state_offline c = Alike-refl c
send_in-Alike w type p1 p2 apcclient_state_disconnect c = Alike-refl c
send_in-Alike w type p1 p2 apcclient_state_online c = online c.connector
  where
    online : (o : Option ℕ) → Alike c (send_online w type p1 p2 o c).1
    online none = Alike-refl c
    online (some id) =
        Alike-trans c _ _ (record { state = refl; intf_id = refl; timer = refl; time = refl })
          (stop_after-Alike _ _ id _)

pub send_data_p-ClientInv :
    (w : World) (type : MsgType) (p1 p2 : List ℕ) (c : Client)
    → ClientInv c
    → ClientInv (send_data_p w type p1 p2 c).1
unfolding send_data_p
send_data_p-ClientInv w type p1 p2 c v = Alike-ClientInv c _ (send_in-Alike w type _ _ c.state c) v

dispatch-Alike : (type : ℕ) (payload : List ℕ) (c : Client) → Alike c (dispatch type payload c)
unfolding dispatch
dispatch-Alike type payload c = ground arith

note_seq-Alike : (flags my_seq : ℕ) (c : Client) → Alike c (note_seq flags my_seq c)
note_seq-Alike flags my_seq c =
    if_both (Alike c) _ _ _
      (λ _. record { state = refl; intf_id = refl; timer = refl; time = refl }) (λ _. Alike-refl c)

pub message_received-ClientInv :
    (param : Received) (payload : List ℕ) (c : Client)
    → ClientInv c
    → ClientInv (message_received param payload c)
unfolding message_received
message_received-ClientInv param payload c v =
    Alike-ClientInv c _
      (if_both (Alike c) noted.has_input (dispatch param.type payload noted) noted
        (λ _. Alike-trans c noted _ alike (dispatch-Alike param.type payload noted)) (λ _. alike))
      v
  where
    confirmed : Client
    confirmed = record c { cache = (confirmed_seq_num c.cache param.your_seq false).1 }

    noted : Client
    noted = note_seq param.flags param.my_seq confirmed

    alike : Alike c noted
    alike =
        Alike-trans c confirmed noted
          (record { state = refl; intf_id = refl; timer = refl; time = refl })
          (note_seq-Alike _ _ confirmed)

resend-Alike :
    (w : World) (o : Option ℕ) (pkt : CachePkt) (c : Client) → Alike c (resend w o pkt c).1
unfolding resend
resend-Alike w none pkt c = record { state = refl; intf_id = refl; timer = refl; time = refl }
resend-Alike w (some id) pkt c = record { state = refl; intf_id = refl; timer = refl; time = refl }

-- The client behind a packet that was taken from its cache.
abbrev taken : Client → Client
taken c = record c { cache = (get_next_packet c.cache).2 }

replay_step :
    (w : World) (fuel : ℕ) (c : Client) (pkt : CachePkt)
    → (get_next_packet c.cache).1 ≡ some pkt
    → replay w (suc fuel) c ≡ (
        if is_ok (resend w c.connector pkt (taken c)).0
        then replay w fuel (resend w c.connector pkt (taken c)).1
        else some (resend w c.connector pkt (taken c)))
unfolding replay
replay_step w fuel c pkt e = rw (e, replay) refl

replay_done :
    (w : World) (fuel : ℕ) (c : Client)
    → (get_next_packet c.cache).1 ≡ none
    → replay w (suc fuel) c ≡ some (apc_ok, taken c)
unfolding replay
replay_done w fuel c e = rw (e, replay) refl

some-inj : {A : Type 0} (a b : A) → some a ≡ some b → a ≡ b
some-inj a b e = cc

sent-Alike :
    (w : World) (o : Option ℕ) (pkt : CachePkt) (c : Client) → Alike c (resend w o pkt (taken c)).1
sent-Alike w o pkt c =
    Alike-trans c (taken c) _ (record { state = refl; intf_id = refl; timer = refl; time = refl })
      (resend-Alike w o pkt (taken c))

pub replay-Alike :
    (w : World) (fuel : ℕ) (c : Client) (r : ApcError × Client)
    → replay w fuel c ≡ some r
    → Alike c r.1
replay-Alike w zero c r run = unfold replay in cc
replay-Alike w (suc fuel) c r run = elim (Option-cases (get_next_packet c.cache).1) [
  | inl end ↦
      subst (λ (x : ApcError × Client). Alike c x.1)
        (some-inj (apc_ok, taken c) r (sym (replay_done w fuel c end) ∙ run))
        (record { state = refl; intf_id = refl; timer = refl; time = refl })
  | inr (pkt, more) ↦ elim (Bool-cases (is_ok (resend w c.connector pkt (taken c)).0)) [
    | inl good ↦
        Alike-trans c _ r.1 (sent-Alike w c.connector pkt c)
          (replay-Alike w fuel _ r (sym (replay_step w fuel c pkt more ∙ rw good refl) ∙ run))
    | inr bad ↦
        subst (λ (x : ApcError × Client). Alike c x.1)
          (some-inj (resend w c.connector pkt (taken c)) r
            (sym (replay_step w fuel c pkt more ∙ rw bad refl) ∙ run))
          (sent-Alike w c.connector pkt c)
  ]
]
