-- ===== src/ApcConnector/Incoming.antt =====
-- `handle_read_p` and `messageReceived` of APInterface/APCConnector.cpp against the stream.
use apbridge.Prelude.{
  ℕ, ◌+◌, ◌%◌, ◌^◌, ◌≡◌, ◌≢◌, inl, inr, refl, ap, ◌∙◌, true, false, not, ◌&&◌, List, arith,
  if◌then◌else◌, ltb, ◌==◌, ne→==-false, Bool-cases, if_both, max, ltb→lt, ltb-false→le,
}
use apbridge.ApcProto.{
  ApcError, apc_ok, apc_err_protocol, apc_stop_connector, apc_connect, apc_disconnect, apc_ka,
}
use apbridge.ApcSerializer.{ApcSerializer, Message}
use apbridge.ApcConnector.State.{Connector, Notif}
use apbridge.ApcConnector.Receive.{message_received, receive_connect, receive_other, note_seq}

module _ (notif : Notif) where
  -- Before the peer's connect message, any message but a connect, a disconnect or a keep alive is
  -- refused, and the connector stays as it was.
  pub message_received-early :
      (c : Connector) (m : Message)
      → c.is_connected ≡ false
      → m.type ≢ apc_connect
      → m.type ≢ apc_disconnect
      → m.type ≢ apc_ka
      → message_received notif c m ≡ (apc_err_protocol, c)
  unfolding message_received
  message_received-early c m early a b d =
      simp
        (
          early,
          ne→==-false m.type apc_connect a,
          ne→==-false m.type apc_disconnect b,
          ne→==-false m.type apc_ka d,
        )
        refl

-- A notification object that leaves the number of the last packet alone.
pub record KeepsSeq (notif : Notif) : Type 0 where
  pub received :
      (flags my_seq your_seq type : ℕ) (payload : List ℕ) (c : Connector)
      → (notif.received flags my_seq your_seq type payload c).last_received_seq_num
        ≡ c.last_received_seq_num

note_seq-max :
    (n : ℕ) (c : Connector) → (note_seq n c).last_received_seq_num ≡ max n c.last_received_seq_num
unfolding note_seq
note_seq-max n c = elim (Bool-cases (ltb c.last_received_seq_num n)) [
  | inl more ↦ simp more (omega (arith, ltb→lt _ _ more))
  | inr less ↦ simp less (omega (arith, ltb-false→le _ _ less))
]

-- The result of `messageReceived` for a message that is no connect, at a state before it.
abbrev Noted : Message → Connector → ApcError × Connector → Type 0
Noted m c out =
    (out.1.last_received_seq_num ≡ max m.my_seq c.last_received_seq_num)
    × (out.0 ≡ (if m.type == apc_disconnect then apc_stop_connector else apc_ok))

receive_other-Noted :
    (notif : Notif) (c : Connector) (m : Message)
    → KeepsSeq notif
    → Noted m c (receive_other notif m c)
unfolding receive_other
receive_other-Noted notif c m keeps = elim (Bool-cases (m.type == apc_disconnect)) [
  | inl bye ↦ rw bye (note_seq-max m.my_seq c, refl)
  | inr stay ↦ rw stay (
      if_both
        (λ (r : ApcError × Connector).
          (r.1.last_received_seq_num ≡ max m.my_seq c.last_received_seq_num) × (r.0 ≡ apc_ok))
        c.has_notif
        (apc_ok, note_seq m.my_seq (notif.received m.flags m.my_seq m.your_seq m.type m.payload c))
        (apc_ok, note_seq m.my_seq c)
        (λ _. (
          note_seq-max m.my_seq _
              ∙ ap (max m.my_seq) (keeps.received m.flags m.my_seq m.your_seq m.type m.payload c),
          refl,
        ))
        (λ _. (note_seq-max m.my_seq c, refl)))
]

-- On a connection that is up, a message that is no connect raises the number of the last packet to
-- its own if that is higher, and never lowers it, whether or not somebody is told of the message,
-- and the result asks for the end of the connection exactly if the message is a disconnect. The
-- one who is told leaves the number alone.
pub message_received-seq :
    (notif : Notif) (c : Connector) (m : Message)
    → KeepsSeq notif
    → c.is_connected ≡ true
    → m.type ≢ apc_connect
    → (let out = message_received notif c m in
        (out.1.last_received_seq_num ≡ max m.my_seq c.last_received_seq_num)
        × (out.0 ≡ (if m.type == apc_disconnect then apc_stop_connector else apc_ok)))
unfolding message_received
message_received-seq notif c m keeps up other =
    if_both (Noted m c)
      (not c.is_connected
        && not (m.type == apc_connect)
        && not (m.type == apc_disconnect)
        && not (m.type == apc_ka))
      (apc_err_protocol, c)
      (if m.type == apc_connect then receive_connect notif m c' else receive_other notif m c')
      (λ early. absurd (never (rw up at early)))
      (λ _. rw (ne→==-false m.type apc_connect other) (receive_other-Noted notif c' m keeps))
  where
    c' : Connector
    c' = record c { num_rcv_pkt = (c.num_rcv_pkt + 1) % 2 ^ 32 }

    never : false ≡ true → ⊥
    never f = cc
