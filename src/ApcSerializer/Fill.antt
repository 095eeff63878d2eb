-- ===== src/ApcSerializer/Fill.antt =====
-- The input buffer of APInterface/APCSerializer.cpp and what `fillInpBuf_p` does to it.
use apbridge.Prelude.{
  ℕ, ◌+◌, ◌-◌, ◌%◌, ◌^◌, ◌≤◌, ◌<◌, ◌≡◌, refl, sym, ap, ◌∙◌, List, [], ◌++◌, arith, lt→ltb,
  le→ltb-false, length, length-append, take, drop, get_or, get_or-take, take-length_append,
  take-length, drop-length_append, drop-take, take_all, drop_all,
}
use apbridge.ApcProto.{apc_hdr_size}
use apbridge.Prelude.Memory.{memcpy, length-memcpy, take-memcpy_end}
use apbridge.ApcSerializer.{
  ApcSerializer, message_in, fill_inp_buf, has_cookie, from_be16, from_be32,
}

-- The first bytes of the buffer are those of the message so far.
pub record Holding (z : ApcSerializer) (acc : List ℕ) (max : ℕ) : Type 0 where
  pub received : z.inp_num_received ≡ length acc
  pub held : take (length acc) z.inp_buf ≡ acc
  pub room : length z.inp_buf ≡ max

abbrev pub filled : ApcSerializer → List ℕ → ApcSerializer
filled z xs = record z {
  inp_buf = memcpy z.inp_buf z.inp_num_received xs;
  inp_num_received = z.inp_num_received + length xs;
}

pub filled-Holding :
    (z : ApcSerializer) (acc xs : List ℕ) (max : ℕ)
    → Holding z acc max
    → length acc + length xs ≤ max
    → Holding (filled z xs) (acc ++ xs) max
filled-Holding z acc xs max v fits = record {
  received = omega (arith, v.received, length-append acc xs);
  held =
      ap (λ (n : ℕ). take n (memcpy z.inp_buf z.inp_num_received xs)) count
      ∙ take-memcpy_end z.inp_buf z.inp_num_received xs (omega (arith, v.received, v.room))
      ∙ ap (λ (l : List ℕ). l ++ xs) (ap (λ (n : ℕ). take n z.inp_buf) v.received ∙ v.held);
  room = length-memcpy z.inp_buf z.inp_num_received xs (omega (arith, v.received, v.room)) ∙ v.room;
}
  where
    count : length (acc ++ xs) ≡ z.inp_num_received + length xs
    count = omega (arith, v.received, length-append acc xs)

-- Fewer bytes than are wanted go in whole.
pub fill_short :
    (z : ApcSerializer) (xs : List ℕ)
    → z.inp_num_received + length xs < z.inp_num_expected
    → z.inp_num_expected < 2 ^ 63
    → fill_inp_buf z xs ≡ (filled z xs, [])
unfolding fill_inp_buf
fill_short z xs h g =
    rw
      (
        lt→ltb (length xs) ((z.inp_num_expected + 2 ^ 64 - z.inp_num_received) % 2 ^ 64)
            (omega arith),
        take_all (length xs) xs (omega arith),
        drop_all (length xs) xs (omega arith),
      )
      refl

-- Of enough bytes those that are wanted go in.
pub fill_full :
    (z : ApcSerializer) (xs ys : List ℕ)
    → z.inp_num_received + length xs ≡ z.inp_num_expected
    → z.inp_num_expected < 2 ^ 63
    → fill_inp_buf z (xs ++ ys) ≡ (filled z xs, ys)
unfolding fill_inp_buf
fill_full z xs ys h g =
    rw
      (
        wanted,
        le→ltb-false (length (xs ++ ys)) (length xs) (omega (arith, length-append xs ys)),
        take-length_append xs ys,
        drop-length_append xs ys,
      )
      refl
  where
    wanted : (z.inp_num_expected + 2 ^ 64 - z.inp_num_received) % 2 ^ 64 ≡ length xs
    wanted = omega arith

-- Whatever the code reads in the first bytes of the buffer, it reads of the message.
module _ (z : ApcSerializer) (acc : List ℕ) (max : ℕ) (v : Holding z acc max) where
  get_or-held : (i : ℕ) → i < length acc → get_or z.inp_buf i 0 ≡ get_or acc i 0
  get_or-held i h =
      sym (get_or-take (length acc) z.inp_buf i 0 h) ∙ ap (λ (l : List ℕ). get_or l i 0) v.held

  pub from_be16-held : 16 ≤ length acc → from_be16 z.inp_buf 14 ≡ from_be16 acc 14
  unfolding from_be16
  from_be16-held h = rw (get_or-held 14 (omega arith), get_or-held 15 (omega arith)) refl

  pub has_cookie-held : 16 ≤ length acc → has_cookie z.inp_buf ≡ has_cookie acc
  unfolding has_cookie
  has_cookie-held h =
      rw
        (
          get_or-held 0 (omega arith),
          get_or-held 1 (omega arith),
          get_or-held 2 (omega arith),
          get_or-held 3 (omega arith),
        )
        refl

  from_be32-held : (n : ℕ) → n + 4 ≤ length acc → from_be32 z.inp_buf n ≡ from_be32 acc n
  unfolding from_be32
  from_be32-held n h =
      rw
        (
          get_or-held n (omega arith),
          get_or-held (n + 1) (omega arith),
          get_or-held (n + 2) (omega arith),
          get_or-held (n + 3) (omega arith),
        )
        refl

  payload-held :
      16 ≤ length acc
      → take (length acc - apc_hdr_size) (drop apc_hdr_size z.inp_buf)
        ≡ take (length acc - apc_hdr_size) (drop apc_hdr_size acc)
  payload-held h =
      sym (drop-take apc_hdr_size (length acc - apc_hdr_size) (length acc) z.inp_buf (omega arith))
      ∙ ap (drop apc_hdr_size) (v.held ∙ sym (take-length acc))
      ∙ drop-take apc_hdr_size (length acc - apc_hdr_size) (length acc) acc (omega arith)

  pub message_in-held :
      16 ≤ length acc → message_in z.inp_buf z.inp_num_received ≡ message_in acc (length acc)
  unfolding message_in
  message_in-held h =
      rw
        (
          v.received,
          get_or-held 13 (omega arith),
          get_or-held 4 (omega arith),
          from_be32-held 5 (omega arith),
          from_be32-held 9 (omega arith),
          payload-held h,
        )
        refl
