-- ===== src/ApcClient/Sending.antt =====
-- `sendData_p` of APInterface/APCClient.cpp against the cache of APInterface/APCCache.cpp.
use apbridge.Prelude.{
  ℕ, ◌+◌, ◌^◌, ◌<◌, ◌≤◌, ◌≡◌, refl, ap, ap₂, ◌∙◌, List, ◌∷◌, Option, none, some, arith,
  if◌then◌else◌, length, take, take-length, if_both,
}
use apbridge.ApcProto.{
  ApcError, MsgType, apc_max_msg_size, apc_stop_write, apc_err_disconnect, apc_err_offline,
  apc_err_notconnect, apc_err_state,
}
use apbridge.ApcSerializer.{is_ok}
use apbridge.ApcCache.{add_packet}
use apbridge.ApcCache.Ring.{Sent}
use apbridge.ApcCache.Add.{sent_of, Added, add_packet-Holds}
use apbridge.ApcCache.Session.{Reach, added, Reach-Holds}
use apbridge.ApcClient.State.{
  World, Client, ClientState, apcclient_state_online, apcclient_state_offline, apcclient_state_init,
  apcclient_state_disconnect, conn_send, conn_stop, emit,
}
use apbridge.ApcClient.Send.{send_data_p, send_in, send_online, send_through, stop_after, cut}
use apbridge.ApcClient.Restore.{end_of}

cut_lem : (bytes : List ℕ) → length bytes < 2 ^ 16 → cut bytes ≡ bytes
cut_lem bytes fits = ap (λ (n : ℕ). take n bytes) (omega (arith, fits)) ∙ take-length bytes

stop_after_lem :
    (res : ApcError) (id : ℕ) (c : Client)
    → stop_after apc_stop_write res id c
      ≡ (if is_ok res then c else emit (conn_stop id apc_stop_write res (end_of res)) c)
unfolding stop_after
stop_after_lem res id c = ground arith

goes_through :
    (w : World) (type : MsgType) (p1 p2 : List ℕ) (id : ℕ) (c : Client)
    → c.state ≡ apcclient_state_online
    → c.connector ≡ some id
    → length p1 + length p2 ≤ apc_max_msg_size
    → send_data_p w type p1 p2 c ≡ send_through w type p1 p2 id c
unfolding send_data_p send_in send_online
goes_through w type p1 p2 id c online at fits =
    ap (λ (s : ClientState). send_in w type (cut p1) (cut p2) s c) online
    ∙ ap (λ (o : Option ℕ). send_online w type (cut p1) (cut p2) o c) at
    ∙ ap₂ (λ (b1 b2 : List ℕ). send_through w type b1 b2 id c) (cut_lem p1 (omega (arith, fits)))
        (cut_lem p2 (omega (arith, fits)))

through_lem :
    (w : World) (type : MsgType) (p1 p2 : List ℕ) (id : ℕ) (history : List Sent) (c : Client)
    → Reach c.cache history
    → length p1 + length p2 ≤ apc_max_msg_size
    → c.cache.last_sent_seq_num + 1 < 2 ^ 64
    → let r = send_through w type p1 p2 id c in
      let sent = sent_of c.cache type p1 p2 in
      let es = conn_send id type 0 sent.number p1 p2 ∷ c.events in
      (r.0 ≡ w.sends c.events)
      × Reach r.1.cache (sent ∷ history)
      × (r.1.events ≡ (if is_ok r.0 then es else conn_stop id apc_stop_write r.0 (end_of r.0) ∷ es))
unfolding send_through
through_lem w type p1 p2 id history c reached fits few =
    rw (stop_after_lem, number.number)
      (
        refl,
        if_both (λ (x : Client). Reach x.cache (sent_of c.cache type p1 p2 ∷ history)) _ _ _
            (λ _. kept) (λ _. kept),
        ground arith,
      )
  where
    kept : Reach (add_packet c.cache type p1 p2).2 (sent_of c.cache type p1 p2 ∷ history)
    kept = added c.cache history type p1 p2 reached fits few

    number : Added c.cache history (sent_of c.cache type p1 p2) (add_packet c.cache type p1 p2)
    number = add_packet-Holds c.cache history type p1 p2 (Reach-Holds _ _ reached) fits few

-- A packet of a client that is online and has a connector, small enough for the cache, of which fewer
-- than 2^64 were sent: it is put into the cache and sent through the connector, with the same number,
-- type and bytes, also when an older packet is pushed out; and the result is that of the send. If
-- that fails, the connector is stopped for that error, and the packet stays in the cache for the next
-- connection.
pub send_data_p-Sent :
    (w : World) (type : MsgType) (p1 p2 : List ℕ) (id : ℕ) (history : List Sent) (c : Client)
    → c.state ≡ apcclient_state_online
    → c.connector ≡ some id
    → Reach c.cache history
    → length p1 + length p2 ≤ apc_max_msg_size
    → c.cache.last_sent_seq_num + 1 < 2 ^ 64
    → let r = send_data_p w type p1 p2 c in
      let sent = sent_of c.cache type p1 p2 in
      let es = conn_send id type 0 sent.number p1 p2 ∷ c.events in
      (r.0 ≡ w.sends c.events)
      × Reach r.1.cache (sent ∷ history)
      × (r.1.events ≡ (if is_ok r.0 then es else conn_stop id apc_stop_write r.0 (end_of r.0) ∷ es))
send_data_p-Sent w type p1 p2 id history c online at reached fits few =
    rw (goes_through w type p1 p2 id c online at fits)
      (through_lem w type p1 p2 id history c reached fits few)

-- The result in the states in which nothing can be sent.
unfoldable pub refusal : ClientState → ApcError
refusal apcclient_state_disconnect = apc_err_disconnect
refusal apcclient_state_offline = apc_err_offline
refusal apcclient_state_init = apc_err_notconnect
refusal apcclient_state_online = apc_err_state

-- A client that is not online, or has no connector, sends nothing and caches nothing: the call has no
-- effect but its result, which tells the state.
pub send_data_p-refused :
    (w : World) (type : MsgType) (p1 p2 : List ℕ) (c : Client)
    → (c.state ≡ apcclient_state_online → c.connector ≡ none)
    → send_data_p w type p1 p2 c ≡ (refusal c.state, c)
unfolding send_data_p send_in send_online refusal
send_data_p-refused w type p1 p2 c idle = ground arith
