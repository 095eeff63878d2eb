-- ===== src/ApcSerializer/Round.antt =====
-- The loop body of `dataReceived` of APInterface/APCSerializer.cpp, from the second `fillInpBuf_p`
-- on, against the byte by byte reading of the stream.
use apbridge.Prelude.{
  ℕ, ◌+◌, ◌-◌, ◌^◌, ◌≤◌, ◌<◌, ◌≡◌, refl, sym, ap, subst, ◌∙◌, true, false, not, ◌&&◌, List, [], ◌∷◌,
  ◌++◌, arith, if◌then◌else◌, ltb, ◌==◌, ne→==-false, ==-refl, ltb→lt, ltb-false→le, lt→ltb, length,
  length-append, length-take, take, drop, take-append-drop, Bool-cases, inl, inr,
}
use apbridge.ApcProto.{ApcError, apc_ok, apc_hdr_size}
use apbridge.ApcSerializer.{ApcSerializer, Message, fill_inp_buf, deliver, rest_of_round}
use apbridge.ApcSerializer.Framing.{
  want, want_full, hand_over, complete, accept, read_all, then_read, read_quiet, read_part,
}
use apbridge.ApcSerializer.Fill.{Holding, filled, filled-Holding, fill_short, fill_full}
use apbridge.ApcSerializer.Deliver.{Rounded, Rounded-deliver}

module _ {S : Type 0} (receive : S → Message → ApcError × S) (max : ℕ) (least : 16 ≤ max)
    (most : max < 2 ^ 62) where
  accept_body :
      (acc xs : List ℕ) (s : S)
      → 16 ≤ length acc
      → length acc + length xs ≡ want acc
      → 0 < length xs
      → accept receive max (acc ++ xs) s ≡ hand_over receive max (acc ++ xs) s
  unfolding accept complete
  accept_body acc xs s h e pos = rw (apart, whole) refl
    where
      apart : (length (acc ++ xs) == apc_hdr_size) ≡ false
      apart = ne→==-false _ _ (omega (arith, length-append acc xs))

      same : want (acc ++ xs) ≡ length (acc ++ xs)
      same = want_full acc xs h ∙ sym e ∙ sym (length-append acc xs)

      whole : (want (acc ++ xs) == length (acc ++ xs)) ≡ true
      whole = rw same (==-refl (length (acc ++ xs)))

  abbrev second_fill : ApcSerializer → List ℕ → ApcSerializer × List ℕ
  second_fill z ys =
      if not (z.inp_num_expected == z.inp_num_received) && ltb 0 (length ys)
      then fill_inp_buf z ys
      else (z, ys)

  after_fill :
      (z z' : ApcSerializer) (s : S) (ys rest : List ℕ)
      → second_fill z ys ≡ (z', rest)
      → rest_of_round receive z s ys ≡ (
          if z'.inp_num_expected == z'.inp_num_received
          then deliver receive z' s rest
          else (apc_ok, z', s, rest))
  unfolding rest_of_round
  after_fill z z' s ys rest e =
      ap
        (λ (r : ApcSerializer × List ℕ).
          if r.0.inp_num_expected == r.0.inp_num_received
          then deliver receive r.0 s r.1
          else (apc_ok, r.0, s, r.1))
        e

  -- With no byte left, a message that is not complete waits.
  pub rest_nothing :
      (z : ApcSerializer) (acc : List ℕ) (s : S)
      → Holding z acc max
      → z.inp_num_expected ≡ want acc
      → length acc < want acc
      → want acc ≤ max
      → Rounded receive max least most
          (then_read receive max (complete receive max acc s) [])
          0
          (rest_of_round receive z s [])
  unfolding complete
  rest_nothing z acc s v expected lt fits =
      rw
        (
          after_fill z z s [] [] none_left,
          open_lem,
          ne→==-false (want acc) (length acc) (omega arith),
        )
        (record {
          read = (apc_ok, acc, s);
          same = refl;
          matches = record {
            result = refl;
            handler = refl;
            agrees = λ _. record { holding = v; expected = expected; pending = lt; fits = fits };
          };
          left = omega arith;
        })
    where
      open_lem : (z.inp_num_expected == z.inp_num_received) ≡ false
      open_lem = ne→==-false _ _ (omega (arith, v.received, expected))

      none_left : second_fill z [] ≡ (z, [])
      none_left = rw open_lem refl

  module _ (z : ApcSerializer) (acc : List ℕ) (s : S) (v : Holding z acc max)
      (expected : z.inp_num_expected ≡ want acc) (body : 16 ≤ length acc)
      (fits : want acc ≤ max) where
    -- The message was complete with the first bytes.
    rest_whole :
        (ys : List ℕ)
        → length acc ≡ want acc
        → Rounded receive max least most
            (then_read receive max (complete receive max acc s) ys)
            (length ys)
            (rest_of_round receive z s ys)
    unfolding complete
    rest_whole ys e =
        rw (after_fill z z s ys ys none_wanted, reached, done)
          (Rounded-deliver receive max least most _ (length ys) z acc s ys v body (omega arith) refl
            (omega arith))
      where
        reached : (z.inp_num_expected == z.inp_num_received) ≡ true
        reached = rw (expected, v.received, e) (==-refl (want acc))

        none_wanted : second_fill z ys ≡ (z, ys)
        none_wanted = rw reached refl

        done : (want acc == length acc) ≡ true
        done = rw e (==-refl (want acc))

    waits : length acc < want acc → (want acc == length acc) ≡ false
    waits lt = ne→==-false _ _ (omega arith)

    still_open : length acc < want acc → (z.inp_num_expected == z.inp_num_received) ≡ false
    still_open lt = ne→==-false _ _ (omega (arith, v.received, expected))

    -- Nothing is left, or not enough.
    rest_short :
        (ys : List ℕ)
        → length acc + length ys < want acc
        → Rounded receive max least most
            (then_read receive max (complete receive max acc s) ys)
            (length ys)
            (rest_of_round receive z s ys)
    unfolding complete
    rest_short [] lt = rest_nothing z acc s v expected (omega arith) fits
    rest_short (y ∷ ys) lt =
        rw (after_fill z z' s (y ∷ ys) [] all_in, apart, waits (omega arith))
          (record {
            read = (apc_ok, acc ++ y ∷ ys, s);
            same = read_quiet receive max acc s (y ∷ ys) lt ∙ unfold read_all in refl;
            matches = record {
              result = refl;
              handler = refl;
              agrees = λ _. record {
                holding = filled-Holding z acc (y ∷ ys) max v (omega arith);
                expected = expected ∙ sym same;
                pending = omega (arith, same, count);
                fits = omega (arith, same);
              };
            };
            left = omega arith;
          })
      where
        z' : ApcSerializer
        z' = filled z (y ∷ ys)

        count : length (acc ++ y ∷ ys) ≡ length acc + length (y ∷ ys)
        count = length-append acc (y ∷ ys)

        same : want (acc ++ y ∷ ys) ≡ want acc
        same = want_full acc (y ∷ ys) body

        all_in : second_fill z (y ∷ ys) ≡ (z', [])
        all_in =
            rw (still_open (omega arith), lt→ltb 0 (length (y ∷ ys)) (omega arith))
              (fill_short z (y ∷ ys) (omega (arith, v.received, expected))
                (omega (arith, expected, most)))

        apart : (z'.inp_num_expected == z'.inp_num_received) ≡ false
        apart = ne→==-false _ _ (omega (arith, v.received, expected))

    -- The rest of the message is there.
    rest_reach :
        (xs ys : List ℕ)
        → 0 < length xs
        → length acc + length xs ≡ want acc
        → Rounded receive max least most
            (then_read receive max (complete receive max acc s) (xs ++ ys))
            (length (xs ++ ys))
            (rest_of_round receive z s (xs ++ ys))
    unfolding complete
    rest_reach xs ys pos e =
        rw (after_fill z (filled z xs) s (xs ++ ys) ys all_in, reached, waits (omega arith))
          (Rounded-deliver receive max least most _ (length (xs ++ ys)) (filled z xs) (acc ++ xs) s
            ys (filled-Holding z acc xs max v (omega arith)) (omega (arith, count))
            (omega (arith, count))
            (read_part receive max acc s xs ys pos e
              ∙ ap (λ (r : ApcError × List ℕ × S). then_read receive max r ys)
                  (accept_body acc xs s body e pos))
            (omega (arith, length-append xs ys)))
      where
        count : length (acc ++ xs) ≡ length acc + length xs
        count = length-append acc xs

        all_in : second_fill z (xs ++ ys) ≡ (filled z xs, ys)
        all_in =
            rw
              (
                still_open (omega arith),
                lt→ltb 0 (length (xs ++ ys)) (omega (arith, length-append xs ys)),
              )
              (fill_full z xs ys (omega (arith, v.received, expected))
                (omega (arith, expected, most)))

        reached : ((filled z xs).inp_num_expected == (filled z xs).inp_num_received) ≡ true
        reached = rw (expected, v.received, e) (==-refl (want acc))

    -- Whatever is left, the rest of the round goes on as the reading does.
    pub rest_of_round_lem :
        (ys : List ℕ)
        → length acc ≤ want acc
        → Rounded receive max least most
            (then_read receive max (complete receive max acc s) ys)
            (length ys)
            (rest_of_round receive z s ys)
    rest_of_round_lem ys le = elim (Bool-cases (ltb (length acc + length ys) (want acc))) [
      | inl short ↦ rest_short ys (ltb→lt _ _ short)
      | inr long ↦ elim (Bool-cases (ltb (length acc) (want acc))) [
        | inr full ↦ rest_whole ys (omega (arith, ltb-false→le _ _ full))
        | inl more ↦
            subst
              (λ (l : List ℕ).
                Rounded receive max least most
                  (then_read receive max (complete receive max acc s) l) (length l)
                  (rest_of_round receive z s l))
              (take-append-drop (want acc - length acc) ys)
              (rest_reach (take (want acc - length acc) ys) (drop (want acc - length acc) ys)
                (omega (
                  arith,
                  ltb→lt _ _ more,
                  ltb-false→le _ _ long,
                  length-take (want acc - length acc) ys,
                ))
                (omega (
                  arith,
                  ltb→lt _ _ more,
                  ltb-false→le _ _ long,
                  length-take (want acc - length acc) ys,
                )))
      ]
    ]
