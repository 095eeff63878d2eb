-- ===== src/ApcConnector/Outgoing.antt =====
-- What `sendData` of APInterface/APCConnector.cpp writes, read by a serializer on the other side.
use apbridge.Prelude.{
  ℕ, ◌+◌, ◌^◌, ◌<◌, ◌≡◌, refl, ap, subst, ◌∙◌, Bool, false, not, ◌&&◌, ◌||◌, List, [], ◌∷◌, ◌++◌,
  Option, none, some, arith, ltb, ◌==◌, if_both, Bool-cases, inl, inr,
}
use apbridge.ApcProto.{
  ApcError, apc_ok, apc_stop_connector, apc_err_init, apc_err_size, apc_err_outbufoverflow,
  apc_err_unconfirmed_pkt, apc_err_io, apc_err_async_operation, apc_err_state, apc_err_protocol,
  apc_err_notfound, apc_err_pktserialization, apc_err_notconnect, apc_err_disconnect,
  apc_err_offline, apc_err_connect, apc_max_msg_size, apc_connect, apc_ka,
}
use apbridge.ApcSerializer.{Message, prep_msg}
use apbridge.ApcSerializer.Framing.{read_all}
use apbridge.ApcSerializer.Roundtrip.{prep_msg-read_all, prep_msg_fits}
use apbridge.ApcConnector.State.{
  Connector, Event, wrote, Wake, write_ended, work_ended, woken, free_buf, incr_num_free_buf,
  wait_free_buf, take_free_buf, get_free_buf, apc_num_out_bufs,
}
use apbridge.ApcConnector.Send.{write_out, outgoing, prepared, send_in, send_data}

-- Waiting for a buffer and taking one leaves these fields alone.
record Same (c c' : Connector) : Type 0 where
  events : c'.events ≡ c.events
  last : c'.last_received_seq_num ≡ c.last_received_seq_num

Same-trans : (a b c : Connector) → Same a b → Same b c → Same a c
Same-trans a b c p q = record { events = q.events ∙ p.events; last = q.last ∙ p.last }

Same-refl : (c : Connector) → Same c c
Same-refl c = record { events = refl; last = refl }

woken-Same : (wake : Wake) (c : Connector) → Same c (woken wake c)
unfolding woken free_buf incr_num_free_buf
woken-Same write_ended c =
    if_both (Same c) (ltb c.num_free_out_buf apc_num_out_bufs)
      (record c { num_free_out_buf = c.num_free_out_buf + 1 }) c
      (λ _. record { events = refl; last = refl }) (λ _. Same-refl c)
woken-Same work_ended c = record { events = refl; last = refl }

wait_free_buf-Same :
    (wakes : List Wake) (allow : Bool) (c : Connector) → Same c (wait_free_buf wakes allow c).1
unfolding wait_free_buf
wait_free_buf-Same [] allow c = Same-refl c
wait_free_buf-Same (wake ∷ wakes) allow c =
    if_both (λ (r : List Wake × Connector). Same c r.1)
      (c.num_free_out_buf == 0 && (c.is_working || allow))
      (wait_free_buf wakes allow (woken wake c)) (wake ∷ wakes, c)
      (λ _. Same-trans c _ _ (woken-Same wake c) (wait_free_buf-Same wakes allow (woken wake c)))
      (λ _. Same-refl c)

take_free_buf-Same : (allow : Bool) (c : Connector) → Same c (take_free_buf allow c).1
unfolding take_free_buf
take_free_buf-Same allow c =
    elim (Bool-cases (c.num_free_out_buf == 0 || (not c.is_working && not allow))) [
      | inl e ↦ simp e (Same-refl c)
      | inr e ↦ simp e (record { events = refl; last = refl })
    ]

get_free_buf-Same :
    (wakes : List Wake) (allow : Bool) (c : Connector) → Same c (get_free_buf wakes allow c).2
unfolding get_free_buf
get_free_buf-Same wakes allow c =
    Same-trans c _ _ (wait_free_buf-Same wakes allow c) (take_free_buf-Same allow _)

refused :
    (c c' : Connector)
    → ◌≡◌ {A = ApcError × Connector} (apc_err_pktserialization, c) (apc_ok, c')
    → ⊥
refused c c' e = differ (ap (λ (r : ApcError × Connector). r.0) e)
  where
    differ : apc_err_pktserialization ≡ apc_ok → ⊥
    differ f = cc

-- The message was written.
record Prepared (r : ApcError × ℕ × Option (List ℕ)) (c c' : Connector) : Type 0 where
  size : ℕ
  bytes : List ℕ
  made : ◌≡◌ {A = ApcError × ℕ × Option (List ℕ)} r (apc_ok, size, some bytes)
  out : write_out bytes c ≡ (apc_ok, c')

prepared-Prepared :
    (r : ApcError × ℕ × Option (List ℕ)) (c c' : Connector)
    → prepared r c ≡ (apc_ok, c')
    → Prepared r c c'
unfolding prepared
prepared-Prepared (apc_ok, size, some bytes) c c' e = record {
  size = size;
  bytes = bytes;
  made = refl;
  out = e;
}
prepared-Prepared (apc_ok, size, none) c c' e = absurd (refused _ c' e)
prepared-Prepared (apc_stop_connector, size, out) c c' e = absurd (refused _ c' e)
prepared-Prepared (apc_err_init, size, out) c c' e = absurd (refused _ c' e)
prepared-Prepared (apc_err_size, size, out) c c' e = absurd (refused _ c' e)
prepared-Prepared (apc_err_outbufoverflow, size, out) c c' e = absurd (refused _ c' e)
prepared-Prepared (apc_err_unconfirmed_pkt, size, out) c c' e = absurd (refused _ c' e)
prepared-Prepared (apc_err_io, size, out) c c' e = absurd (refused _ c' e)
prepared-Prepared (apc_err_async_operation, size, out) c c' e = absurd (refused _ c' e)
prepared-Prepared (apc_err_state, size, out) c c' e = absurd (refused _ c' e)
prepared-Prepared (apc_err_protocol, size, out) c c' e = absurd (refused _ c' e)
prepared-Prepared (apc_err_notfound, size, out) c c' e = absurd (refused _ c' e)
prepared-Prepared (apc_err_pktserialization, size, out) c c' e = absurd (refused _ c' e)
prepared-Prepared (apc_err_notconnect, size, out) c c' e = absurd (refused _ c' e)
prepared-Prepared (apc_err_disconnect, size, out) c c' e = absurd (refused _ c' e)
prepared-Prepared (apc_err_offline, size, out) c c' e = absurd (refused _ c' e)
prepared-Prepared (apc_err_connect, size, out) c c' e = absurd (refused _ c' e)

record Wrote (bytes : List ℕ) (c c' : Connector) : Type 0 where
  events : c'.events ≡ wrote bytes ∷ c.events
  reported : c'.last_reported_seq_num ≡ c.last_received_seq_num

write_out-Wrote :
    (bytes : List ℕ) (c c' : Connector) → write_out bytes c ≡ (apc_ok, c') → Wrote bytes c c'
unfolding write_out
write_out-Wrote bytes c c' e = elim (Bool-cases c.write_works) [
  | inl works ↦
      subst (Wrote bytes c) (ap (λ (r : ApcError × Connector). r.1) (simp works at e))
        (record { events = refl; reported = refl })
  | inr fails ↦ absurd (differ (ap (λ (r : ApcError × Connector). r.0) (simp fails at e)))
]
  where
    differ : apc_err_async_operation ≡ apc_ok → ⊥
    differ f = cc

-- What a call of `sendData` that succeeds has written.
record Sent (type flags my_seq : ℕ) (p1 p2 : List ℕ) (c c' : Connector) : Type 0 where
  size : ℕ
  bytes : List ℕ
  made : prep_msg apc_max_msg_size (outgoing type flags my_seq c) p1 p2 ≡ (apc_ok, size, some bytes)
  wrote : Wrote bytes c c'

send_in-Sent :
    (buf : Option ℕ) (type flags my_seq : ℕ) (p1 p2 : List ℕ) (c c1 c' : Connector)
    → Same c c1
    → send_in buf type flags my_seq p1 p2 c1 ≡ (apc_ok, c')
    → Sent type flags my_seq p1 p2 c c'
unfolding send_in
send_in-Sent none type flags my_seq p1 p2 c c1 c' same e =
    absurd (differ (ap (λ (r : ApcError × Connector). r.0) e))
  where
    differ : apc_err_outbufoverflow ≡ apc_ok → ⊥
    differ f = cc
send_in-Sent (some i) type flags my_seq p1 p2 c c1 c' same e =
    let done =
      prepared-Prepared (prep_msg apc_max_msg_size (outgoing type flags my_seq c1) p1 p2) c1 c' e in
    let out = write_out-Wrote done.bytes c1 c' done.out in
    record {
      size = done.size;
      bytes = done.bytes;
      made =
          subst
            (λ (n : ℕ).
              prep_msg apc_max_msg_size (numbered n) p1 p2 ≡ (apc_ok, done.size, some done.bytes))
            same.last done.made;
      wrote = record {
        events = out.events ∙ ap (λ (es : List Event). wrote done.bytes ∷ es) same.events;
        reported = out.reported ∙ same.last;
      };
    }
  where
    numbered : ℕ → Message
    numbered n = record { type = type; flags = flags; my_seq = my_seq; your_seq = n; payload = [] }

send_data-Sent :
    (wakes : List Wake) (type flags my_seq : ℕ) (p1 p2 : List ℕ) (c c' : Connector)
    → send_data wakes type flags my_seq p1 p2 c ≡ (apc_ok, c')
    → Sent type flags my_seq p1 p2 c c'
unfolding send_data
send_data-Sent wakes type flags my_seq p1 p2 c c' e =
    elim (Bool-cases (
      not c.is_working
      || (not c.is_connected && not (type == apc_connect) && not (type == apc_ka)))) [
        | inl closed ↦ absurd (differ (ap (λ (r : ApcError × Connector). r.0) (simp closed at e)))
        | inr open_now ↦
            send_in-Sent (get_free_buf wakes false c).0 type flags my_seq p1 p2 c _ c'
              (get_free_buf-Same wakes false c) (simp open_now at e)
      ]
  where
    differ : apc_err_notconnect ≡ apc_ok → ⊥
    differ f = cc

-- A call of `sendData` that succeeds has put one message into the socket. Read by a serializer on
-- the other side, with a buffer of the same size, it is one message with the type, the flags, the
-- sequence number and the two parts of the payload of the call, and it acknowledges the last
-- packet that the connector has received, which then counts as reported. The two sequence numbers
-- are 32 bits wide.
pub send_data-read_all :
    {S : Type 0}
    → (receive : S → Message → ApcError × S) (s : S)
    → (wakes : List Wake) (type flags my_seq : ℕ) (p1 p2 : List ℕ) (c c' : Connector)
    → send_data wakes type flags my_seq p1 p2 c ≡ (apc_ok, c')
    → my_seq < 2 ^ 32
    → c.last_received_seq_num < 2 ^ 32
    → (bytes : List ℕ) × (c'.events ≡ wrote bytes ∷ c.events)
      × (c'.last_reported_seq_num ≡ c.last_received_seq_num)
      × (let (res, s') = receive s (record {
        type = type;
        flags = flags;
        my_seq = my_seq;
        your_seq = c.last_received_seq_num;
        payload = p1 ++ p2;
      }) in
          read_all receive apc_max_msg_size [] s bytes ≡ (res, [], s'))
send_data-read_all receive s wakes type flags my_seq p1 p2 c c' e mine yours =
    let out = send_data-Sent wakes type flags my_seq p1 p2 c c' e in
    let fits =
      prep_msg_fits apc_max_msg_size out.size (outgoing type flags my_seq c) p1 p2 out.bytes
        out.made in
    (
      out.bytes,
      out.wrote.events,
      out.wrote.reported,
      prep_msg-read_all receive apc_max_msg_size apc_max_msg_size out.size
          (outgoing type flags my_seq c) p1 p2 out.bytes s out.made (omega (arith, fits)) fits mine
          yours,
    )
