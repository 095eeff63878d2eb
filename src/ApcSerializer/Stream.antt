-- ===== src/ApcSerializer/Stream.antt =====
-- `dataReceived` of APInterface/APCSerializer.cpp against the byte by byte reading of the stream.
use apbridge.Prelude.{
  ℕ, ◌+◌, ◌-◌, ◌^◌, ◌≤◌, ◌<◌, ◌≡◌, refl, sym, subst, ◌∙◌, false, List, [], ◌∷◌, ◌++◌, arith, ltb,
  ◌==◌, ne→==-false, ltb→lt, ltb-false→le, length, length-append, length-take, length-drop, take,
  drop, take-append-drop, Bool-cases, inl, inr,
}
use apbridge.ApcProto.{ApcError, apc_ok, apc_hdr_size}
use apbridge.ApcSerializer.{
  ApcSerializer, Message, fill_inp_buf, has_cookie, from_be16, rest_of_round, round, rounds,
  data_received, is_ok, new_serializer,
}
use apbridge.ApcSerializer.Framing.{
  want, want_full, complete, accept, read_all, then_read, read_quiet, read_part, read_all-append,
}
use apbridge.ApcSerializer.Fill.{filled, filled-Holding, fill_short}
use apbridge.ApcSerializer.Deliver.{Agrees, Rounded}
use apbridge.ApcSerializer.Round.{rest_nothing}
use apbridge.ApcSerializer.Part.{round_body, round_header}

module _ {S : Type 0} (receive : S → Message → ApcError × S) (max : ℕ) (least : 16 ≤ max)
    (most : max < 2 ^ 62) where
  -- A round that begins within a message, on all the bytes at hand.
  module _ (z : ApcSerializer) (acc : List ℕ) (s : S) (v : Agrees max z acc) where
    round_short :
        (bs : List ℕ)
        → 0 < length bs
        → length acc + length bs < want acc
        → Rounded receive max least most (read_all receive max acc s bs) 0 (round receive z s bs)
    unfolding round
    round_short bs pos lt =
        rw
          (
            fill_short z bs (omega (arith, v.holding.received, v.expected))
                (omega (arith, v.expected, v.fits, most)),
            apart,
            read_quiet receive max acc s bs lt,
          )
          (subst
            (λ (w : ApcError × List ℕ × S).
              Rounded receive max least most w 0 (rest_of_round receive (filled z bs) s []))
            waits
            (rest_nothing receive max least most (filled z bs) (acc ++ bs) s
              (filled-Holding z acc bs max v.holding (omega (arith, v.fits)))
              (v.expected ∙ sym same) (omega (arith, same, count)) (omega (arith, same, v.fits))))
      where
        count : length (acc ++ bs) ≡ length acc + length bs
        count = length-append acc bs

        same : want (acc ++ bs) ≡ want acc
        same = apbridge.ApcSerializer.Framing.want-append acc bs (omega (arith, count))

        apart : ((filled z bs).inp_num_received == apc_hdr_size) ≡ false
        apart = ne→==-false _ _ (unfold want in ground (arith, v.holding.received, v.pending, lt))

        waits :
            then_read receive max (complete receive max (acc ++ bs) s) [] ≡ (apc_ok, acc ++ bs, s)
        waits =
            unfold complete read_all in
            rw (ne→==-false (want (acc ++ bs)) (length (acc ++ bs)) (omega (arith, same, count)))
              refl

    -- A round reads a first part of the bytes, and leaves fewer.
    pub round_lem :
        (b : ℕ) (bs : List ℕ)
        → Rounded receive max least most
            (read_all receive max acc s (b ∷ bs))
            (length bs)
            (round receive z s (b ∷ bs))
    round_lem b bs = elim (Bool-cases (ltb (length acc + length (b ∷ bs)) (want acc))) [
      | inl short ↦
          fewer 0 (length bs) (omega arith) (round_short (b ∷ bs) (omega arith) (ltb→lt _ _ short))
      | inr long ↦
          fewer (length ys) (length bs)
            (omega (arith, v.pending, ltb-false→le _ _ long, length-drop n (b ∷ bs)))
            (subst
              (λ (l : List ℕ).
                Rounded receive max least most (read_all receive max acc s l) (length ys)
                  (round receive z s l))
              (take-append-drop n (b ∷ bs))
              (elim (Bool-cases (ltb (length acc) 16)) [
                | inl header ↦
                    round_header receive max least most z acc s v xs ys (some_byte long)
                      (reached long) (ltb→lt _ _ header)
                | inr body ↦
                    round_body receive max least most z acc s v xs ys (some_byte long)
                      (reached long) (ltb-false→le _ _ body)
              ]))
    ]
      where
        n : ℕ
        n = want acc - length acc

        xs : List ℕ
        xs = take n (b ∷ bs)

        ys : List ℕ
        ys = drop n (b ∷ bs)

        some_byte : ltb (length acc + length (b ∷ bs)) (want acc) ≡ false → 0 < length xs
        some_byte long = omega (arith, v.pending, ltb-false→le _ _ long, length-take n (b ∷ bs))

        reached :
            ltb (length acc + length (b ∷ bs)) (want acc) ≡ false
            → length acc + length xs ≡ want acc
        reached long = omega (arith, v.pending, ltb-false→le _ _ long, length-take n (b ∷ bs))

        fewer :
            (k m : ℕ)
            → k ≤ m
            → Rounded receive max least most
                (read_all receive max acc s (b ∷ bs))
                k
                (round receive z s (b ∷ bs))
            → Rounded receive max least most
                (read_all receive max acc s (b ∷ bs))
                m
                (round receive z s (b ∷ bs))
        fewer k m le r = record {
          read = r.read;
          same = r.same;
          matches = r.matches;
          left = omega (arith, r.left);
        }
