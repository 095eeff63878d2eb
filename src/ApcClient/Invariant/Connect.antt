-- ===== src/ApcClient/Invariant/Connect.antt =====
-- The connections of APInterface/APCClient.cpp keep its invariant.
use apbridge.Prelude.{
  ℕ, ◌≡◌, ◌≢◌, refl, subst, Bool, true, false, not, Option, none, some, arith, ◌==◌, if_both,
}
use apbridge.ApcProto.{ApcError, apc_ok, apc_proto_ver}
use apbridge.ApcConnector.State.{Connected}
use apbridge.ApcCache.{confirmed_seq_num, prep_for_get}
use apbridge.NotifThread.{Notice, started, connected, disconnected, received}
use apbridge.ApcClient.State.{World, Client, time_empty, apintfid_empty, stop_timer_p}
use apbridge.ApcClient.Send.{stop_after}
use apbridge.ApcClient.Notices.{
  restore, finish_connect, begun, apc_started, apc_connected, is_refused, handle_notice,
}
use apbridge.ApcClient.Invariant.{
  ClientInv, Alike, Alike-ClientInv, Alike-trans, replay-Alike, message_received-ClientInv,
  emit-ClientInv,
}
use apbridge.ApcClient.Invariant.Disconnect.{apc_disconnected-ClientInv}

-- A client that has accepted a connection: no timer and no deadline, and a session.
record Begun (c : Client) : Type 0 where
  timer : c.has_reconnect_timer ≡ false
  time : c.disconnect_time ≡ time_empty
  session : c.intf_id ≢ apintfid_empty

begun-Begun : (param : Connected) (c : Client) → is_refused param c ≡ false → Begun (begun param c)
unfolding begun stop_timer_p
begun-Begun param c ok = ground arith

Begun-ClientInv : (c : Client) → Begun c → ClientInv c
Begun-ClientInv c b = ground (arith, b.timer, b.time, b.session)

Begun-Alike : (c c' : Client) → Alike c c' → Begun c → Begun c'
Begun-Alike c c' a b = ground (arith, b.timer, b.time, b.session, a.timer, a.time, a.intf_id)

finish_connect-ClientInv :
    (is_new : Bool) (id : ℕ) (param : Connected) (res : ApcError) (c : Client)
    → Begun c
    → ClientInv (finish_connect is_new id param (res, c))
unfolding finish_connect stop_after
finish_connect-ClientInv is_new id param res c b = ground (arith, b.timer, b.time, b.session)

restore-Alike :
    (w : World) (param : Connected) (c : Client) (r : ApcError × Client)
    → restore w param c ≡ some r
    → Alike c r.1
unfolding restore
restore-Alike w param c r run =
    Alike-trans c
      (record c { cache = prep_for_get (confirmed_seq_num c.cache param.your_seq true).1 }) r.1
      (record { state = refl; intf_id = refl; timer = refl; time = refl })
      (replay-Alike w _ _ r run)

-- The result, if there is one, has the property.
abbrev pub Ensures : (Client → Type 0) → Option Client → Type 0
Ensures P none = Unit
Ensures P (some c) = P c

pub Ensures-some :
    (P : Client → Type 0) (o : Option Client) (c : Client) → o ≡ some c → Ensures P o → P c
Ensures-some P o c e h = subst (Ensures P) e h

restored-ClientInv :
    (w : World) (id : ℕ) (param : Connected) (c : Client) (o : Option (ApcError × Client))
    → Begun c
    → restore w param c ≡ o
    → Ensures ClientInv (elim o [ none ↦ none | some r ↦ some (finish_connect false id param r) ])
restored-ClientInv w id param c none b run = tt
restored-ClientInv w id param c (some (res, c1)) b run =
    finish_connect-ClientInv false id param res c1
      (Begun-Alike c c1 (restore-Alike w param c (res, c1) run) b)

pub apc_connected-ClientInv :
    (w : World) (id : ℕ) (param : Connected) (c : Client)
    → ClientInv c
    → Ensures ClientInv (apc_connected w id param c)
unfolding apc_connected
apc_connected-ClientInv w id param c v =
    if_both (Ensures ClientInv) (not (param.ver == apc_proto_ver)) _ _ (λ _. emit-ClientInv _ c v)
      (λ _.
        if_both (Ensures ClientInv) (is_refused param c) _ _ (λ _. emit-ClientInv _ c v)
          (λ ok.
            if_both (Ensures ClientInv) (c.intf_id == apintfid_empty) _ _
              (λ _. finish_connect-ClientInv true id param apc_ok _ (begun-Begun param c ok))
              (λ _.
                restored-ClientInv w id param (begun param c) (restore w param (begun param c))
                  (begun-Begun param c ok) refl)))

pub handle_notice-ClientInv :
    (w : World) (n : Notice) (c : Client) → ClientInv c → Ensures ClientInv (handle_notice w n c)
unfolding handle_notice apc_started
handle_notice-ClientInv w (started id) c v =
    Alike-ClientInv c _ (record { state = refl; intf_id = refl; timer = refl; time = refl }) v
handle_notice-ClientInv w (connected id param) c v = apc_connected-ClientInv w id param c v
handle_notice-ClientInv w (disconnected id param) c v = apc_disconnected-ClientInv w id param c
handle_notice-ClientInv w (received param payload) c v =
    message_received-ClientInv param payload c v
