-- ===== src/ApcSerializer/Deliver.antt =====
-- Handing on a message in `dataReceived` of APInterface/APCSerializer.cpp, and what a round has to do
-- with the byte by byte reading of the stream.
use apbridge.Prelude.{
  ℕ, ◌+◌, ◌-◌, ◌^◌, ◌≤◌, ◌<◌, ◌≡◌, refl, sym, ap, ◌∙◌, true, List, [], arith, length, length-take,
  length-drop, drop, Bool-cases, inl, inr,
}
use apbridge.Prelude.Memory.{memcpy, length-memcpy}
use apbridge.ApcProto.{ApcError, apc_hdr_size}
use apbridge.ApcSerializer.{
  ApcSerializer, Message, message_in, deliver, is_ok, convert, net_to_host,
}
use apbridge.ApcSerializer.Convert.{length-convert}
use apbridge.ApcSerializer.Framing.{want, hand_over, then_read}
use apbridge.ApcSerializer.Fill.{Holding, message_in-held}

-- Between two calls: the buffer holds the bytes of a message that is not complete, and its length
-- is known as far as they tell.
pub record Agrees (max : ℕ) (z : ApcSerializer) (acc : List ℕ) : Type 0 where
  pub holding : Holding z acc max
  pub expected : z.inp_num_expected ≡ want acc
  pub pending : length acc < want acc
  pub fits : want acc ≤ max

module _ {S : Type 0} (receive : S → Message → ApcError × S) (max : ℕ) (least : 16 ≤ max)
    (most : max < 2 ^ 62) where
  -- The result of a call, or of a part of it, is that of the reading.
  pub record Matches (res : ApcError) (z : ApcSerializer) (s : S) (r : ApcError × List ℕ × S)
      : Type 0 where
    pub result : res ≡ r.0
    pub handler : s ≡ r.2
    pub agrees : is_ok r.0 ≡ true → Agrees max z r.1

  pub reset_Agrees :
      (z : ApcSerializer) (buf : List ℕ)
      → length buf ≡ max
      → Agrees max
          (record z { inp_buf = buf; inp_num_received = 0; inp_num_expected = apc_hdr_size })
          []
  unfolding want
  reset_Agrees z buf e = record {
    holding = record { received = refl; held = refl; room = e };
    expected = refl;
    pending = omega arith;
    fits = least;
  }

  length-payload :
      (acc : List ℕ)
      → 16 ≤ length acc
      → length (message_in acc (length acc)).payload + 16 ≡ length acc
  unfolding message_in
  length-payload acc h = omega (
    arith,
    length-take (length acc - apc_hdr_size) (drop apc_hdr_size acc),
    length-drop apc_hdr_size acc,
  )

  -- Handing a message on leaves the buffer ready for the next one, whatever the handler says.
  deliver_lem :
      (z : ApcSerializer) (acc : List ℕ) (s : S) (rest : List ℕ)
      → Holding z acc max
      → 16 ≤ length acc
      → length acc ≤ max
      → let out = deliver receive z s rest in
        Matches out.0 out.1 out.2 (hand_over receive max acc s) × (out.3 ≡ rest)
  unfolding deliver hand_over
  deliver_lem z acc s rest v h le = elim (Bool-cases (is_ok done.0)) [
    | inl e ↦
        rw (message_in-held z acc max v h, e)
          (record { result = refl; handler = refl; agrees = λ _. reset_Agrees z _ same }, refl)
    | inr e ↦
        rw (message_in-held z acc max v h, e)
          (record { result = refl; handler = refl; agrees = λ _. reset_Agrees z _ same }, refl)
  ]
    where
      m : Message
      m = message_in acc (length acc)

      done : ApcError × List ℕ
      done = convert net_to_host m.type m.payload

      same : length (memcpy z.inp_buf apc_hdr_size done.1) ≡ max
      same =
          length-memcpy z.inp_buf apc_hdr_size done.1 (
            omega
              (arith, length-convert net_to_host m.type m.payload, length-payload acc h, v.room))
          ∙ v.room

  -- What a round, or the rest of one, has done to the bytes it was given: a first part of them is
  -- read, and the reading goes on with the others.
  pub record Rounded (whole : ApcError × List ℕ × S) (n : ℕ)
      (out : ApcError × ApcSerializer × S × List ℕ) : Type 0 where
    pub read : ApcError × List ℕ × S
    pub same : whole ≡ then_read receive max read out.3
    pub matches : Matches out.0 out.1 out.2 read
    pub left : length out.3 ≤ n

  pub Rounded-deliver :
      (whole : ApcError × List ℕ × S) (n : ℕ) (z : ApcSerializer) (acc : List ℕ) (s : S)
      (rest : List ℕ)
      → Holding z acc max
      → 16 ≤ length acc
      → length acc ≤ max
      → whole ≡ then_read receive max (hand_over receive max acc s) rest
      → length rest ≤ n
      → Rounded whole n (deliver receive z s rest)
  Rounded-deliver whole n z acc s rest v h le same few =
      let (m, e) = deliver_lem z acc s rest v h le in
      record {
        read = hand_over receive max acc s;
        same =
            same
            ∙ ap (λ (l : List ℕ). then_read receive max (hand_over receive max acc s) l) (sym e);
        matches = m;
        left = omega (arith, ap length e);
      }
