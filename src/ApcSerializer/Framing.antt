-- ===== src/ApcSerializer/Framing.antt =====
-- The framing of the TCP stream of APInterface/APCSerializer.cpp, byte by byte. It is written from
-- the message format: it has no buffer, no counters and no chunks.
use apbridge.Prelude.{
  ℕ, suc, ◌+◌, ◌≤◌, ◌<◌, ◌≡◌, refl, ap, ◌∙◌, false, not, List, [], ◌∷◌, ◌++◌, append-nil,
  append_assoc, arith, if◌then◌else◌, ltb, ◌==◌, length, length-append, get_or-append, Bool-cases,
  inl, inr,
}
use apbridge.ApcProto.{ApcError, apc_ok, apc_err_size, apc_err_protocol, apc_hdr_size}
use apbridge.ApcSerializer.{is_ok, Message, message_in, net_to_host, convert, has_cookie, from_be16}

-- How many bytes the message that begins with `acc` has, as far as `acc` tells.
unfoldable pub want : List ℕ → ℕ
want acc = if ltb (length acc) apc_hdr_size then apc_hdr_size else apc_hdr_size + from_be16 acc 14

from_be16-append : (acc xs : List ℕ) → 16 ≤ length acc → from_be16 (acc ++ xs) 14 ≡ from_be16 acc 14
unfolding from_be16
from_be16-append acc xs h =
    rw (get_or-append acc xs 14 0 (omega arith), get_or-append acc xs 15 0 (omega arith)) refl

-- Where the message is longer than what has come of it, more bytes do not change its length.
pub want-append : (acc xs : List ℕ) → length (acc ++ xs) < want acc → want (acc ++ xs) ≡ want acc
unfolding want
want-append acc xs h = ground (arith, length-append acc xs, from_be16-append acc xs)

-- Once the header is there, its length field stands.
pub want_full : (acc xs : List ℕ) → 16 ≤ length acc → want (acc ++ xs) ≡ want acc
unfolding want
want_full acc xs h = ground (arith, length-append acc xs, from_be16-append acc xs)

module _ {S : Type 0} (receive : S → Message → ApcError × S) (max : ℕ) where
  abbrev pub Read : Type 0
  Read = ApcError × List ℕ × S

  unfoldable pub hand_over : List ℕ → S → Read
  hand_over acc s =
      let m = message_in acc (length acc) in
      let (res, body) = convert net_to_host m.type m.payload in
      if is_ok res
      then (let (res', s') = receive s (record m { payload = body }) in (res', [], s'))
      else (res, [], s)

  unfoldable pub complete : List ℕ → S → Read
  complete acc s = if want acc == length acc then hand_over acc s else (apc_ok, acc, s)

  -- One more byte has come; `acc` ends with it.
  unfoldable pub accept : List ℕ → S → Read
  accept acc s =
      if length acc == apc_hdr_size
      then (if not (has_cookie acc)
          then (apc_err_protocol, acc, s)
          else if ltb max (apc_hdr_size + from_be16 acc 14)
          then (apc_err_size, acc, s)
          else complete acc s)
      else complete acc s

  -- Bytes are read until one of them ends with an error.
  unfoldable pub read_all : List ℕ → S → List ℕ → Read
  read_all acc s [] = (apc_ok, acc, s)
  read_all acc s (b ∷ bs) =
      let (res, acc', s') = accept (acc ++ b ∷ []) s in
      let more = read_all acc' s' bs in if is_ok res then more else (res, acc', s')

  -- What follows a part of the stream.
  abbrev pub then_read : Read → List ℕ → Read
  then_read r bs = if is_ok r.0 then read_all r.1 r.2 bs else r

  pub read_all-append :
      (acc : List ℕ) (s : S) (xs ys : List ℕ)
      → read_all acc s (xs ++ ys) ≡ then_read (read_all acc s xs) ys
  unfolding read_all
  read_all-append acc s [] ys = refl
  read_all-append acc s (x ∷ xs) ys = elim (Bool-cases (is_ok (accept (acc ++ x ∷ []) s).0)) [
    | inl e ↦ rw e (read_all-append (accept (acc ++ x ∷ []) s).1 (accept (acc ++ x ∷ []) s).2 xs ys)
    | inr e ↦ rw (e, e) refl
  ]

  accept_quiet :
      (acc : List ℕ) (s : S) (b : ℕ)
      → length acc + 1 < want acc
      → accept (acc ++ b ∷ []) s ≡ (apc_ok, acc ++ b ∷ [], s)
  unfolding accept complete
  accept_quiet acc s b h = rw (inner, short) refl
    where
      grown : length (acc ++ b ∷ []) ≡ length acc + 1
      grown = length-append acc (b ∷ [])

      inner : (length (acc ++ b ∷ []) == apc_hdr_size) ≡ false
      inner = rw grown (unfold want in ground arith)

      short : (want (acc ++ b ∷ []) == length (acc ++ b ∷ [])) ≡ false
      short = rw (want-append acc (b ∷ []) (omega (arith, grown)), grown) (ground arith)

  grown_want : (acc : List ℕ) (x : ℕ) → length acc + 1 < want acc → want (acc ++ x ∷ []) ≡ want acc
  grown_want acc x h = want-append acc (x ∷ []) (omega (arith, length-append acc (x ∷ [])))

  -- Up to the byte before the next boundary nothing happens.
  pub read_quiet :
      (acc : List ℕ) (s : S) (xs : List ℕ)
      → length acc + length xs < want acc
      → read_all acc s xs ≡ (apc_ok, acc ++ xs, s)
  unfolding read_all
  read_quiet acc s [] h = rw append-nil refl
  read_quiet acc s (x ∷ xs) h = rw (accept_quiet acc s x (omega arith)) (
      read_quiet (acc ++ x ∷ []) s xs
        (omega (arith, grown_want acc x (omega arith), length-append acc (x ∷ [])))
      ∙ ap (λ (l : List ℕ). (apc_ok, l, s)) (append_assoc acc (x ∷ []) xs))

  -- At the boundary one decision is taken, on all the bytes of it.
  pub read_reach :
      (acc : List ℕ) (s : S) (x : ℕ) (xs ys : List ℕ)
      → length acc + suc (length xs) ≡ want acc
      → read_all acc s ((x ∷ xs) ++ ys) ≡ then_read (accept (acc ++ x ∷ xs) s) ys
  unfolding read_all
  read_reach acc s x [] ys h = refl
  read_reach acc s x (y ∷ xs) ys h = rw (accept_quiet acc s x (omega arith)) (
      read_reach (acc ++ x ∷ []) s y xs ys
        (omega (arith, grown_want acc x (omega arith), length-append acc (x ∷ [])))
      ∙ ap (λ (l : List ℕ). then_read (accept l s) ys) (append_assoc acc (x ∷ []) (y ∷ xs)))

  -- The same for a part that is not empty.
  pub read_part :
      (acc : List ℕ) (s : S) (xs ys : List ℕ)
      → 0 < length xs
      → length acc + length xs ≡ want acc
      → read_all acc s (xs ++ ys) ≡ then_read (accept (acc ++ xs) s) ys
  read_part acc s [] ys pos h = absurd (omega arith)
  read_part acc s (x ∷ xs) ys pos h = read_reach acc s x xs ys h
