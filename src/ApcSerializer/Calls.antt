-- ===== src/ApcSerializer/Calls.antt =====
-- `dataReceived` of APInterface/APCSerializer.cpp: the loop, and calls that follow each other.
use apbridge.Prelude.{
  ℕ, zero, suc, ◌^◌, ◌≤◌, ◌<◌, ◌≡◌, refl, sym, ap, subst, ◌∙◌, true, false, List, [], ◌∷◌, ◌++◌,
  Option, none, some, arith, if◌then◌else◌, length, length-replicate, Bool-cases, inl, inr, ◌⊎◌,
}
use apbridge.ApcProto.{ApcError, apc_ok}
use apbridge.ApcSerializer.{
  ApcSerializer, Message, round, rounds, data_received, is_ok, new_serializer,
}
use apbridge.ApcSerializer.Framing.{want, read_all, read_all-append}
use apbridge.ApcSerializer.Deliver.{Agrees, Matches, Rounded}
use apbridge.ApcSerializer.Stream.{round_lem}

pub new_serializer-Agrees : (max : ℕ) → 16 ≤ max → max < 2 ^ 62 → Agrees max (new_serializer max) []
unfolding new_serializer want
new_serializer-Agrees max least most = record {
  holding = record { received = refl; held = refl; room = length-replicate max 0 };
  expected = refl;
  pending = omega arith;
  fits = least;
}

module _ {S : Type 0} (receive : S → Message → ApcError × S) (max : ℕ) (least : 16 ≤ max)
    (most : max < 2 ^ 62) where
  -- A call returns, with the result of a reading.
  pub record Returned (r : ApcError × List ℕ × S) (call : Option (ApcError × ApcSerializer × S))
      : Type 0 where
    pub out : ApcError × ApcSerializer × S
    pub returns : call ≡ some out
    pub matches : Matches receive max least most out.0 out.1 out.2 r

  round_ends :
      (fuel : ℕ) (z : ApcSerializer) (acc : List ℕ) (s : S) (b : ℕ) (bs : List ℕ)
      → Rounded receive max least most
          (read_all receive max acc s (b ∷ bs))
          (length bs)
          (round receive z s (b ∷ bs))
      → is_ok (round receive z s (b ∷ bs)).0 ≡ false
      → Returned (read_all receive max acc s (b ∷ bs)) (rounds receive (suc fuel) z s (b ∷ bs))
  unfolding rounds
  round_ends fuel z acc s b bs r e = record {
    out = (out.0, out.1, out.2);
    returns = rw e refl;
    matches =
        subst (λ (w : ApcError × List ℕ × S). Matches receive max least most out.0 out.1 out.2 w)
          (sym whole) r.matches;
  }
    where
      out : ApcError × ApcSerializer × S × List ℕ
      out = round receive z s (b ∷ bs)

      bad : is_ok r.read.0 ≡ false
      bad = ap is_ok (sym r.matches.result) ∙ e

      whole : read_all receive max acc s (b ∷ bs) ≡ r.read
      whole = r.same ∙ rw bad refl

  round_goes :
      (fuel : ℕ) (z : ApcSerializer) (acc : List ℕ) (s : S) (b : ℕ) (bs : List ℕ)
      → (r : Rounded receive max least most
          (read_all receive max acc s (b ∷ bs))
          (length bs)
          (round receive z s (b ∷ bs)))
      → is_ok (round receive z s (b ∷ bs)).0 ≡ true
      → (let out = round receive z s (b ∷ bs) in
          Returned
            (read_all receive max r.read.1 out.2 out.3)
            (rounds receive fuel out.1 out.2 out.3))
      → Returned (read_all receive max acc s (b ∷ bs)) (rounds receive (suc fuel) z s (b ∷ bs))
  unfolding rounds
  round_goes fuel z acc s b bs r e next = record {
    out = next.out;
    returns = rw e next.returns;
    matches =
        subst
          (λ (w : ApcError × List ℕ × S).
            Matches receive max least most next.out.0 next.out.1 next.out.2 w)
          (sym whole) next.matches;
  }
    where
      out : ApcError × ApcSerializer × S × List ℕ
      out = round receive z s (b ∷ bs)

      good : is_ok r.read.0 ≡ true
      good = ap is_ok (sym r.matches.result) ∙ e

      whole : read_all receive max acc s (b ∷ bs) ≡ read_all receive max r.read.1 out.2 out.3
      whole =
          r.same
          ∙ rw good refl
          ∙ ap (λ (h : S). read_all receive max r.read.1 h out.3) (sym r.matches.handler)

  pub rounds_lem :
      (fuel : ℕ) (z : ApcSerializer) (acc : List ℕ) (s : S) (bs : List ℕ)
      → Agrees max z acc
      → length bs < fuel
      → Returned (read_all receive max acc s bs) (rounds receive fuel z s bs)
  rounds_lem zero z acc s bs v lt = absurd (omega (arith, lt))
  rounds_lem (suc fuel) z acc s [] v lt = record {
    out = (apc_ok, z, s);
    returns = unfold rounds in refl;
    matches = unfold read_all in record { result = refl; handler = refl; agrees = λ _. v };
  }
  rounds_lem (suc fuel) z acc s (b ∷ bs) v lt =
      elim (Bool-cases (is_ok (round receive z s (b ∷ bs)).0)) [
        | inr e ↦ round_ends fuel z acc s b bs (round_lem receive max least most z acc s v b bs) e
        | inl e ↦
            let r = round_lem receive max least most z acc s v b bs in
            let out = round receive z s (b ∷ bs) in
            round_goes fuel z acc s b bs r e (
              rounds_lem fuel out.1 r.read.1 out.2 out.3
                (r.matches.agrees (ap is_ok (sym r.matches.result) ∙ e))
                (omega (arith, r.left, lt)))
      ]

  -- From a state between two calls, in which the bytes of a part of a message have come, a call of
  -- `dataReceived` returns. Its result and the handler's state are those that reading the new bytes
  -- one at a time gives; and the result is an error, or it is again a state between two calls, with
  -- the bytes kept that the reading keeps.
  pub data_received-read_all :
      (z : ApcSerializer) (acc : List ℕ) (s : S) (bs : List ℕ)
      → Agrees max z acc
      → (let r = read_all receive max acc s bs in
          (z' : ApcSerializer) × (data_received receive z s bs ≡ some (r.0, z', r.2))
          × ((is_ok r.0 ≡ false) ⊎ Agrees max z' r.1))
  unfolding data_received
  data_received-read_all z acc s bs v = (done.out.1, done.returns ∙ parts, ready)
    where
      r : ApcError × List ℕ × S
      r = read_all receive max acc s bs

      done : Returned r (rounds receive (suc (length bs)) z s bs)
      done = rounds_lem (suc (length bs)) z acc s bs v (omega arith)

      parts :
          ◌≡◌ {A = Option (ApcError × ApcSerializer × S)}
            (some done.out)
            (some (r.0, done.out.1, r.2))
      parts = rw (← done.matches.result, ← done.matches.handler) refl

      ready : (is_ok r.0 ≡ false) ⊎ Agrees max done.out.1 r.1
      ready = elim (Bool-cases (is_ok r.0)) [ inl e ↦ inr (done.matches.agrees e) | inr e ↦ inl e ]

-- The calls that the chunks of a stream make; an error ends them.
abbrev pub after_call :
    {S : Type 0}
    → (ApcSerializer → S → Option (ApcError × S))
    → Option (ApcError × ApcSerializer × S)
    → Option (ApcError × S)
after_call next none = none
after_call next (some (res, z, s)) =
    let more = next z s in if is_ok res then more else some (res, s)

unfoldable pub calls :
    {S : Type 0}
    → (S → Message → ApcError × S)
    → List (List ℕ)
    → ApcSerializer
    → S
    → Option (ApcError × S)
calls receive [] z s = some (apc_ok, s)
calls receive (chunk ∷ chunks) z s =
    after_call (λ z' s'. calls receive chunks z' s') (data_received receive z s chunk)

unfoldable pub whole : List (List ℕ) → List ℕ
whole [] = []
whole (chunk ∷ chunks) = chunk ++ whole chunks

abbrev outcome : {S : Type 0} → ApcError × List ℕ × S → Option (ApcError × S)
outcome r = some (r.0, r.2)

module _ {S : Type 0} (receive : S → Message → ApcError × S) (max : ℕ) (least : 16 ≤ max)
    (most : max < 2 ^ 62) where
  calls_lem :
      (chunks : List (List ℕ)) (z : ApcSerializer) (acc : List ℕ) (s : S)
      → Agrees max z acc
      → calls receive chunks z s ≡ outcome (read_all receive max acc s (whole chunks))
  unfolding calls whole
  calls_lem [] z acc s v = unfold read_all in refl
  calls_lem (chunk ∷ chunks) z acc s v =
      let (z', e, next) = data_received-read_all receive max least most z acc s chunk v in
      rw (e, read_all-append receive max acc s chunk (whole chunks))
        (elim next [
          | inl bad ↦ rw bad refl
          | inr v' ↦ elim (Bool-cases (is_ok (read_all receive max acc s chunk).0)) [
            | inr bad ↦ rw bad refl
            | inl good ↦ rw good (
                calls_lem chunks z' (read_all receive max acc s chunk).1
                  (read_all receive max acc s chunk).2 v')
          ]
        ])

  -- However the stream is cut into the chunks that `dataReceived` is called with, the calls from a
  -- new serializer return, and what the handler has received and the last result are those of
  -- reading the stream one byte at a time, for a buffer of at least 16 and less than 2^62 bytes.
  pub calls-read_all :
      (chunks : List (List ℕ)) (s : S)
      → calls receive chunks (new_serializer max) s
        ≡ (let r = read_all receive max [] s (whole chunks) in some (r.0, r.2))
  calls-read_all chunks s =
      calls_lem chunks (new_serializer max) [] s (new_serializer-Agrees max least most)
