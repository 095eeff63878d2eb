-- ===== src/Hdlc/Frames.antt =====
-- How `CHDLC` of APInterface/HDLC.cpp reads what `appendHDLC` writes.
use Prim.Native.Nat.{bit_xor}
use apbridge.Prelude.{
  ℕ, ◌≡◌, ◌≢◌, refl, sym, ap, false, List, [], ◌∷◌, ◌++◌, append-nil, append_assoc, Option, none,
  some, arith, if◌then◌else◌, Bool-cases, inl, inr,
}
use apbridge.Prelude.Bits.{bit_xor_cancel}
use apbridge.Hdlc.{
  Chdlc, ParseState, hdlc_packet_complete, hdlc_data, hdlc_escape, hdlc_padding, hdlc_escchar,
  hdlc_xorbyte, is_special, append_hdlc, fcs_of, add_one_byte_to_fcs16, reset, append, end_frame,
  add_byte_in, add_byte, collect, feed,
}
use apbridge.Hdlc.Fcs.{fcs_of-append}

-- The bytes on the line for a byte of the packet.
pub escaped : List ℕ → List ℕ
escaped [] = []
escaped (b ∷ bs) =
    (if is_special b then hdlc_escchar ∷ bit_xor b hdlc_xorbyte ∷ [] else b ∷ []) ++ escaped bs

pub append_hdlc-escaped : (dst src : List ℕ) → append_hdlc dst src ≡ dst ++ escaped src
unfolding append_hdlc escaped
append_hdlc-escaped dst [] = sym (append-nil dst)
append_hdlc-escaped dst (b ∷ src) = elim (Bool-cases (is_special b)) [
  | inl e ↦
      rw (e, append_hdlc-escaped (dst ++ hdlc_escchar ∷ bit_xor b hdlc_xorbyte ∷ []) src)
        (append_assoc dst _ (escaped src))
  | inr e ↦ rw (e, append_hdlc-escaped (dst ++ b ∷ []) src) (append_assoc dst _ (escaped src))
]

-- The decoder `h` after the packet bytes `bs`, with `s` the state that they leave.
abbrev pub absorbed : Chdlc → ParseState → List ℕ → Chdlc
absorbed h s bs = record h {
  state = s;
  buffer = h.buffer ++ bs;
  running_fcs = fcs_of h.running_fcs bs;
}

-- The state in which the decoder stands after the line bytes of one packet byte.
abbrev pub state_after : ParseState → List ℕ → ParseState
state_after s [] = s
state_after s (b ∷ bs) = state_after (if is_special b then hdlc_data else s) bs

pub collect-append :
    (o : Option (List ℕ)) (a b : List (List ℕ)) → collect o (a ++ b) ≡ collect o a ++ b
unfolding collect
collect-append none a b = refl
collect-append (some p) a b = refl

pub feed-append :
    (h : Chdlc) (xs ys : List ℕ)
    → feed h (xs ++ ys)
      ≡ (let (h', out) = feed h xs in let (h'', rest) = feed h' ys in (h'', out ++ rest))
unfolding feed
feed-append h [] ys = refl
feed-append h (x ∷ xs) ys = rw (feed-append (add_byte h x).0 xs ys) (
    ap (λ (l : List (List ℕ)). ((feed (feed (add_byte h x).0 xs).0 ys).0, l))
      (collect-append (add_byte h x).1 _ _))

-- A special byte is one of two, and the escape is taken off again.
plain_byte :
    (s : ParseState) (h : Chdlc) (b : ℕ)
    → s ≢ hdlc_escape
    → is_special b ≡ false
    → add_byte_in s h b ≡ (append h b, none)
unfolding add_byte_in is_special
plain_byte hdlc_packet_complete h b ne e = ground arith
plain_byte hdlc_data h b ne e = ground arith
plain_byte hdlc_escape h b ne e = absurd (ne refl)

escape_byte :
    (s : ParseState) (h : Chdlc)
    → s ≢ hdlc_escape
    → add_byte_in s h hdlc_escchar ≡ (record h { state = hdlc_escape }, none)
unfolding add_byte_in
escape_byte hdlc_packet_complete h ne = refl
escape_byte hdlc_data h ne = refl
escape_byte hdlc_escape h ne = absurd (ne refl)

-- The padding ends the frame.
pub padding_byte :
    (s : ParseState) (h : Chdlc)
    → s ≢ hdlc_escape
    → add_byte_in s h hdlc_padding ≡ (reset h, end_frame h)
unfolding add_byte_in
padding_byte hdlc_packet_complete h ne = refl
padding_byte hdlc_data h ne = refl
padding_byte hdlc_escape h ne = absurd (ne refl)

pub state_after-ne :
    (s : ParseState) (bs : List ℕ) → s ≢ hdlc_escape → state_after s bs ≢ hdlc_escape
state_after-ne s [] ne = ne
state_after-ne s (b ∷ bs) ne = elim (Bool-cases (is_special b)) [
  | inl e ↦ rw e (state_after-ne hdlc_data bs (λ p. cc))
  | inr e ↦ rw e (state_after-ne s bs ne)
]

feed_special :
    (s : ParseState) (h : Chdlc) (b : ℕ)
    → s ≢ hdlc_escape
    → feed (record h { state = s }) (hdlc_escchar ∷ bit_xor b hdlc_xorbyte ∷ [])
      ≡ (absorbed h hdlc_data (b ∷ []), [])
unfolding feed add_byte add_byte_in append collect fcs_of add_one_byte_to_fcs16
feed_special s h b ne =
    rw (escape_byte s (record h { state = s }) ne, bit_xor_cancel b hdlc_xorbyte) refl

feed_plain :
    (s : ParseState) (h : Chdlc) (b : ℕ)
    → s ≢ hdlc_escape
    → is_special b ≡ false
    → feed (record h { state = s }) (b ∷ []) ≡ (absorbed h s (b ∷ []), [])
unfolding feed add_byte append collect fcs_of add_one_byte_to_fcs16
feed_plain s h b ne e = rw (plain_byte s (record h { state = s }) b ne e) refl

feed_byte :
    (s : ParseState) (h : Chdlc) (b : ℕ)
    → s ≢ hdlc_escape
    → feed (record h { state = s }) (escaped (b ∷ []))
      ≡ (absorbed h (state_after s (b ∷ [])) (b ∷ []), [])
unfolding escaped
feed_byte s h b ne = elim (Bool-cases (is_special b)) [
  | inl e ↦ rw e (feed_special s h b ne)
  | inr e ↦ rw e (feed_plain s h b ne e)
]

-- The decoder takes the escaped bytes of a packet in, delivers nothing, and holds the packet's own
-- bytes.
pub feed-escaped :
    (s : ParseState) (h : Chdlc) (bs : List ℕ)
    → s ≢ hdlc_escape
    → feed (record h { state = s }) (escaped bs) ≡ (absorbed h (state_after s bs) bs, [])
feed-escaped s h [] ne = unfold feed escaped fcs_of in rw append-nil refl
feed-escaped s h (b ∷ bs) ne =
    rw (escaped_cons b bs, feed-append, feed_byte s h b ne)
      (rw
        (
          feed-escaped (state_after s (b ∷ [])) (absorbed h s (b ∷ [])) bs
              (state_after-ne s (b ∷ []) ne),
          append_assoc,
          ← fcs_of-append,
        )
        refl)
  where
    escaped_cons : (b : ℕ) (bs : List ℕ) → escaped (b ∷ bs) ≡ escaped (b ∷ []) ++ escaped bs
    escaped_cons b bs = unfold escaped in rw append-nil

pub escaped-append : (xs ys : List ℕ) → escaped (xs ++ ys) ≡ escaped xs ++ escaped ys
unfolding escaped
escaped-append [] ys = refl
escaped-append (x ∷ xs) ys =
    rw (escaped-append xs ys) (sym (append_assoc _ (escaped xs) (escaped ys)))
