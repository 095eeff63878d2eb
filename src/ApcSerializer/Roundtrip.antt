-- ===== src/ApcSerializer/Roundtrip.antt =====
-- What `prepMsg` of APInterface/APCSerializer.cpp writes is read back.
use apbridge.Prelude.{
  ℕ, ◌+◌, ◌-◌, ◌*◌, ◌/◌, ◌%◌, ◌^◌, ◌≤◌, ◌<◌, ◌≡◌, refl, sym, ap, ◌∙◌, true, List, [], ◌∷◌, ◌++◌,
  append-nil, Option, none, some, arith, ltb, ltb-false→le, le→ltb-false, ne→==-false, ==-refl,
  ==→eq, ==-false→ne, ◌≢◌, ◌==◌, length, length-append, take-length, Bool-cases, inl, inr,
}
use apbridge.ApcProto.{
  ApcError, apc_ok, apc_stop_connector, apc_err_init, apc_err_size, apc_err_outbufoverflow,
  apc_err_unconfirmed_pkt, apc_err_io, apc_err_async_operation, apc_err_state, apc_err_protocol,
  apc_err_notfound, apc_err_pktserialization, apc_err_notconnect, apc_err_disconnect,
  apc_err_offline, apc_err_connect, apc_hdr_size,
}
use apbridge.ApcSerializer.{
  Message, header, be16, be32, from_be16, from_be32, has_cookie, message_in, prep_msg, convert,
  host_to_net, net_to_host, is_ok,
}
use apbridge.ApcSerializer.Framing.{
  want, want_full, hand_over, complete, accept, read_all, then_read, read_part,
}
use apbridge.ApcSerializer.Convert.{length-convert}
use apbridge.ApcSerializer.Undo.{convert_back}

split32 :
    (v : ℕ)
    → v < 2 ^ 32
    → ((v / 2 ^ 24) % 2 ^ 8) * 2 ^ 24
        + ((v / 2 ^ 16) % 2 ^ 8) * 2 ^ 16
        + ((v / 2 ^ 8) % 2 ^ 8) * 2 ^ 8
        + v % 2 ^ 8
      ≡ v
split32 v h = omega (arith, h)

-- The message that stands for a header and a body.
module _ (m : Message) (body : List ℕ) (small : length body < 2 ^ 16) where
  h : List ℕ
  h = header m (length body)

  length-header : length h ≡ 16
  unfolding h header be16 be32
  length-header = refl

  field-header : from_be16 h 14 ≡ length body
  unfolding h header be16 be32 from_be16
  field-header = omega (arith, small)

  cookie-header : has_cookie h ≡ true
  unfolding h header be16 be32 has_cookie
  cookie-header = refl

  want-header : want h ≡ 16 + length body
  unfolding want
  want-header = rw (length-header, field-header) refl

  message-header :
      m.my_seq < 2 ^ 32
      → m.your_seq < 2 ^ 32
      → message_in (h ++ body) (length (h ++ body)) ≡ record m { payload = body }
  unfolding h header be16 be32 message_in from_be32
  message-header mine yours =
      rw (split32 m.my_seq mine, split32 m.your_seq yours, counted, take-length body) refl
    where
      counted : length (h ++ body) - apc_hdr_size ≡ length body
      counted = omega (arith, length-append h body, length-header)

is_ok→ok : (e : ApcError) → is_ok e ≡ true → e ≡ apc_ok
is_ok→ok apc_ok h = refl
is_ok→ok apc_stop_connector h = cc
is_ok→ok apc_err_init h = cc
is_ok→ok apc_err_size h = cc
is_ok→ok apc_err_outbufoverflow h = cc
is_ok→ok apc_err_unconfirmed_pkt h = cc
is_ok→ok apc_err_io h = cc
is_ok→ok apc_err_async_operation h = cc
is_ok→ok apc_err_state h = cc
is_ok→ok apc_err_protocol h = cc
is_ok→ok apc_err_notfound h = cc
is_ok→ok apc_err_pktserialization h = cc
is_ok→ok apc_err_notconnect h = cc
is_ok→ok apc_err_disconnect h = cc
is_ok→ok apc_err_offline h = cc
is_ok→ok apc_err_connect h = cc

-- What the handler makes of a message.
abbrev handled : {S : Type 0} → ApcError × S → ApcError × List ℕ × S
handled (res, s) = (res, [], s)

module _ {S : Type 0} (receive : S → Message → ApcError × S) (max : ℕ) (m : Message) (s : S)
    (payload body : List ℕ) (back : convert net_to_host m.type body ≡ (apc_ok, payload))
    (small : length body < 2 ^ 16) (fits : 16 + length body ≤ max) (mine : m.my_seq < 2 ^ 32)
    (yours : m.your_seq < 2 ^ 32) where
  head : List ℕ
  head = h m body small

  count : length (head ++ body) ≡ 16 + length body
  unfolding head
  count = omega (arith, length-append head body, length-header m body small)

  hand_over_lem :
      hand_over receive max (head ++ body) s ≡ handled (receive s (record m { payload = payload }))
  unfolding hand_over head
  hand_over_lem = rw (message-header m body small mine yours, back) refl

  complete_lem :
      complete receive max (head ++ body) s ≡ handled (receive s (record m { payload = payload }))
  unfolding complete
  complete_lem = rw (wanted, ==-refl (length (head ++ body))) hand_over_lem
    where
      wanted : want (head ++ body) ≡ length (head ++ body)
      wanted =
          unfold head in
          want_full (h m body small) body (omega (arith, length-header m body small))
          ∙ want-header m body small
          ∙ sym count

  -- At the end of the header nothing is refused.
  accept-head : accept receive max head s ≡ complete receive max head s
  unfolding accept head
  accept-head =
      rw
        (
          length-header m body small,
          cookie-header m body small,
          field-header m body small,
          le→ltb-false max (16 + length body) fits,
        )
        refl

  finished : (r : ApcError × S) → then_read receive max (handled r) [] ≡ handled r
  unfolding read_all
  finished r = elim (Bool-cases (is_ok r.0)) [
    | inl e ↦ rw (is_ok→ok r.0 e) refl
    | inr e ↦ rw e refl
  ]

  answer : ApcError × List ℕ × S
  answer = handled (receive s (record m { payload = payload }))

  -- The message is its header.
  read_bare : length body ≡ 0 → then_read receive max (complete receive max head s) body ≡ answer
  unfolding answer
  read_bare e =
      ap (then_read receive max (complete receive max head s)) (empty body e)
      ∙ ap (λ (l : List ℕ). then_read receive max (complete receive max l s) [])
          (sym (append-nil head) ∙ ap (λ (l : List ℕ). head ++ l) (sym (empty body e)))
      ∙ ap (λ (r : ApcError × List ℕ × S). then_read receive max r []) complete_lem
      ∙ finished (receive s (record m { payload = payload }))
    where
      empty : (xs : List ℕ) → length xs ≡ 0 → xs ≡ []
      empty [] e = refl
      empty (x ∷ xs) e = absurd (omega (arith, e))

  read_body : 0 < length body → read_all receive max head s body ≡ answer
  unfolding answer
  read_body pos =
      ap (read_all receive max head s) (sym (append-nil body))
      ∙ read_part receive max head s body [] pos whole
      ∙ ap (λ (r : ApcError × List ℕ × S). then_read receive max r []) (inner ∙ complete_lem)
      ∙ finished (receive s (record m { payload = payload }))
    where
      whole : length head + length body ≡ want head
      whole = unfold head in (omega (arith, want-header m body small, length-header m body small))

      inner : accept receive max (head ++ body) s ≡ complete receive max (head ++ body) s
      inner =
          unfold accept in rw (ne→==-false (length (head ++ body)) 16 (omega (arith, count))) refl

  read_message :
      read_all receive max [] s (head ++ body)
      ≡ handled (receive s (record m { payload = payload }))
  unfolding head h header be32 be16 answer
  read_message =
      read_part receive max [] s head body (omega (arith, length-header m body small))
        (unfold want in length-header m body small)
      ∙ rw accept-head (elim (Bool-cases (length body == 0)) [
        | inl e ↦ read_bare (==→eq _ _ e)
        | inr e ↦ rw (waiting (==-false→ne _ _ e)) (read_body (omega (arith, ==-false→ne _ _ e)))
      ])
    where
      waiting : length body ≢ 0 → complete receive max head s ≡ (apc_ok, head, s)
      waiting some_body =
          unfold complete head in
          rw
            (ne→==-false (want head) (length head)
              (omega (arith, some_body, want-header m body small, length-header m body small)))
            refl

taken : Option (List ℕ) → List ℕ
taken none = []
taken (some bytes) = bytes

abbrev Out : Type 0
Out = ApcError × ℕ × Option (List ℕ)

abbrev written : Message → List ℕ → List ℕ → List ℕ
written m p1 p2 = header m (length p1 + length p2) ++ (convert host_to_net m.type (p1 ++ p2)).1

-- Where `prepMsg` succeeds, what it has written is the header and the converted payload.
prep_msg_ok :
    (max_size size : ℕ) (m : Message) (p1 p2 bytes : List ℕ)
    → prep_msg max_size m p1 p2 ≡ (apc_ok, size, some bytes)
    → ((convert host_to_net m.type (p1 ++ p2)).0 ≡ apc_ok) × (bytes ≡ written m p1 p2)
unfolding prep_msg taken
prep_msg_ok max_size size m p1 p2 bytes e =
    elim (Bool-cases (ltb max_size (length p1 + length p2 + apc_hdr_size))) [
      | inl large ↦ absurd (no_error (ap (λ (r : Out). r.0) (rw large at e)))
      | inr small ↦
          (ap (λ (r : Out). r.0) (rw small at e), sym (ap (λ (r : Out). taken r.2) (rw small at e)))
    ]
  where
    no_error : apc_err_size ≡ apc_ok → ⊥
    no_error e = cc

-- A message that `prepMsg` makes is no larger than its limit.
pub prep_msg_fits :
    (max_size size : ℕ) (m : Message) (p1 p2 bytes : List ℕ)
    → prep_msg max_size m p1 p2 ≡ (apc_ok, size, some bytes)
    → 16 + length p1 + length p2 ≤ max_size
unfolding prep_msg
prep_msg_fits max_size size m p1 p2 bytes e =
    elim (Bool-cases (ltb max_size (length p1 + length p2 + apc_hdr_size))) [
      | inl large ↦ absurd (no_error (ap (λ (r : Out). r.0) (rw large at e)))
      | inr small ↦ omega (arith, ltb-false→le _ _ small)
    ]
  where
    no_error : apc_err_size ≡ apc_ok → ⊥
    no_error e = cc

-- What `prepMsg` writes for a message, its payload in two parts, is read back from the stream: the
-- handler gets one message with the same type, flags and sequence numbers and the payload joined,
-- no byte is kept, and the result is the handler's. The sequence numbers are 32 bits wide, the
-- payload is less than 2^16 bytes long, and the message fits in the reader's buffer.
pub prep_msg-read_all :
    {S : Type 0}
    → (receive : S → Message → ApcError × S)
    → (max max_size size : ℕ) (m : Message) (p1 p2 bytes : List ℕ) (s : S)
    → prep_msg max_size m p1 p2 ≡ (apc_ok, size, some bytes)
    → length p1 + length p2 < 2 ^ 16
    → 16 + length p1 + length p2 ≤ max
    → m.my_seq < 2 ^ 32
    → m.your_seq < 2 ^ 32
    → (let (res, s') = receive s (record m { payload = p1 ++ p2 }) in
        read_all receive max [] s bytes ≡ (res, [], s'))
unfolding head h
prep_msg-read_all receive max max_size size m p1 p2 bytes s e small fits mine yours =
    let (ok, same) = prep_msg_ok max_size size m p1 p2 bytes e in
    let body = (convert host_to_net m.type (p1 ++ p2)).1 in
    let count = length-convert host_to_net m.type (p1 ++ p2) ∙ length-append p1 p2 in
    rw (same, ← count)
      (read_message receive max m s (p1 ++ p2) body (convert_back m.type (p1 ++ p2) ok)
        (omega (arith, count, small)) (omega (arith, count, fits)) mine yours)
