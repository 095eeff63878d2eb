-- ===== src/ApcSerializer/Part.antt =====
-- A round of `dataReceived` of APInterface/APCSerializer.cpp that has all the bytes it wants: the
-- header or the body of a message is complete with them.
use apbridge.Prelude.{
  ℕ, ◌+◌, ◌^◌, ◌≤◌, ◌<◌, ◌≡◌, refl, sym, ◌∙◌, true, false, List, ◌++◌, arith, ltb, ◌==◌,
  ne→==-false, ltb-false→le, le→ltb-false, length, length-append, Bool-cases, inl, inr,
}
use apbridge.ApcProto.{ApcError, apc_err_size, apc_err_protocol, apc_hdr_size}
use apbridge.ApcSerializer.{ApcSerializer, Message, has_cookie, from_be16, round, is_ok}
use apbridge.ApcSerializer.Framing.{
  want, want_full, complete, accept, read_all, then_read, read_part,
}
use apbridge.ApcSerializer.Fill.{
  Holding, filled, filled-Holding, fill_full, from_be16-held, has_cookie-held,
}
use apbridge.ApcSerializer.Deliver.{Agrees, Rounded}
use apbridge.ApcSerializer.Round.{rest_of_round_lem}

module _ {S : Type 0} (receive : S → Message → ApcError × S) (max : ℕ) (least : 16 ≤ max)
    (most : max < 2 ^ 62) where
  -- Within a message.
  module _ (z : ApcSerializer) (acc : List ℕ) (s : S) (v : Agrees max z acc) where
    module _ (xs ys : List ℕ) (pos : 0 < length xs) (e : length acc + length xs ≡ want acc) where
      count : length (acc ++ xs) ≡ length acc + length xs
      count = length-append acc xs

      z' : ApcSerializer
      z' = filled z xs

      held : Holding z' (acc ++ xs) max
      unfolding z'
      held = filled-Holding z acc xs max v.holding (omega (arith, v.fits))

      -- Within the body of a message.
      pub round_body :
          16 ≤ length acc
          → Rounded receive max least most
              (read_all receive max acc s (xs ++ ys))
              (length ys)
              (round receive z s (xs ++ ys))
      unfolding round z'
      round_body body =
          rw
            (
              fill_full z xs ys (omega (arith, v.holding.received, v.expected))
                  (omega (arith, v.expected, v.fits, most)),
              apart,
              read_part receive max acc s xs ys pos e,
              plain,
            )
            (rest_of_round_lem receive max least most z' (acc ++ xs) s held (v.expected ∙ sym same)
              (omega (arith, count)) (omega (arith, same, v.fits)) ys (omega (arith, same, count)))
        where
          same : want (acc ++ xs) ≡ want acc
          same = want_full acc xs body

          apart : ((filled z xs).inp_num_received == apc_hdr_size) ≡ false
          apart = ne→==-false _ _ (omega (arith, v.holding.received))

          plain : accept receive max (acc ++ xs) s ≡ complete receive max (acc ++ xs) s
          plain =
              unfold accept in
              rw (ne→==-false (length (acc ++ xs)) apc_hdr_size (omega (arith, count))) refl

      -- A refusal: the result is an error, and the handler has seen nothing.
      refused :
          (err : ApcError) (z'' : ApcSerializer)
          → is_ok err ≡ false
          → Rounded receive max least most
              (then_read receive max (err, acc ++ xs, s) ys)
              (length ys)
              (err, z'', s, ys)
      refused err z'' bad = record {
        read = (err, acc ++ xs, s);
        same = refl;
        matches = record {
          result = refl;
          handler = refl;
          agrees = λ ok. absurd (clash err bad ok);
        };
        left = omega arith;
      }
        where
          clash : (err : ApcError) → is_ok err ≡ false → is_ok err ≡ true → ⊥
          clash err bad ok = cc

      -- The header is complete with these bytes.
      pub round_header :
          length acc < 16
          → Rounded receive max least most
              (read_all receive max acc s (xs ++ ys))
              (length ys)
              (round receive z s (xs ++ ys))
      unfolding round z' accept
      round_header short = elim (Bool-cases (has_cookie (acc ++ xs))) [
        | inr strange ↦
            rw
              (
                fill_full z xs ys (omega (arith, v.holding.received, v.expected))
                    (omega (arith, v.expected, v.fits, most)),
                at_header,
                read_part receive max acc s xs ys pos e,
                here,
                cookie,
                strange,
              )
              (refused apc_err_protocol grown refl)
        | inl known ↦ elim (Bool-cases (ltb max (apc_hdr_size + from_be16 (acc ++ xs) 14))) [
          | inl large ↦
              rw
                (
                  fill_full z xs ys (omega (arith, v.holding.received, v.expected))
                      (omega (arith, v.expected, v.fits, most)),
                  at_header,
                  read_part receive max acc s xs ys pos e,
                  here,
                  cookie,
                  known,
                  room,
                  large,
                )
                (refused apc_err_size grown refl)
          | inr small ↦
              rw
                (
                  fill_full z xs ys (omega (arith, v.holding.received, v.expected))
                      (omega (arith, v.expected, v.fits, most)),
                  at_header,
                  read_part receive max acc s xs ys pos e,
                  here,
                  cookie,
                  known,
                  room,
                  small,
                )
                (rest_of_round_lem receive max least most grown (acc ++ xs) s
                  (record { received = held.received; held = held.held; room = held.room })
                  bytes_wanted (omega (arith, count, sixteen))
                  (omega (arith, header_want, ltb-false→le _ _ small)) ys
                  (omega (arith, header_want, count, sixteen)))
        ]
      ]
        where
          sixteen : want acc ≡ 16
          sixteen = unfold want in ground (arith, short)

          grown : ApcSerializer
          grown = record z' { inp_num_expected = z'.inp_num_expected + from_be16 z'.inp_buf 14 }

          here : (length (acc ++ xs) == apc_hdr_size) ≡ true
          here = rw (count, e, sixteen) refl

          at_header : ((filled z xs).inp_num_received == apc_hdr_size) ≡ true
          at_header = rw (v.holding.received, e, sixteen) refl

          cookie : has_cookie (filled z xs).inp_buf ≡ has_cookie (acc ++ xs)
          cookie =
              unfold z' in
              has_cookie-held (filled z xs) (acc ++ xs) max held (omega (arith, count, sixteen))

          field : from_be16 (filled z xs).inp_buf 14 ≡ from_be16 (acc ++ xs) 14
          field =
              unfold z' in
              from_be16-held (filled z xs) (acc ++ xs) max held (omega (arith, count, sixteen))

          size :
              (filled z xs).inp_num_expected + from_be16 (filled z xs).inp_buf 14
              ≡ apc_hdr_size + from_be16 (acc ++ xs) 14
          size = omega (arith, field, v.expected, sixteen)

          room :
              ltb
                (length (filled z xs).inp_buf)
                ((filled z xs).inp_num_expected + from_be16 (filled z xs).inp_buf 14)
              ≡ ltb max (apc_hdr_size + from_be16 (acc ++ xs) 14)
          room = unfold z' in rw (held.room, size) refl

          header_want : want (acc ++ xs) ≡ apc_hdr_size + from_be16 (acc ++ xs) 14
          header_want =
              unfold want in
              rw (le→ltb-false (length (acc ++ xs)) apc_hdr_size (omega (arith, count, sixteen)))
                refl

          bytes_wanted : z.inp_num_expected + from_be16 (filled z xs).inp_buf 14 ≡ want (acc ++ xs)
          bytes_wanted = omega (arith, size, header_want)
