-- ===== src/Hdlc/Stream/Sound.antt =====
-- What `CHDLC` of APInterface/HDLC.cpp hands to its callback, on any line whatever.
use Prim.Native.Nat.{bit_xor}
use apbridge.Prelude.{
  ℕ, zero, suc, ◌-◌, ◌<◌, ◌≡◌, ◌≢◌, refl, sym, ap, ap₂, ◌∙◌, Bool, true, List, [], ◌∷◌, ◌++◌,
  Option, none, some, arith, length, take, drop, take-append-drop, length-drop, All, All-append,
  ◌==◌, if◌then◌else◌, Bool-cases, inl, inr,
}
use apbridge.Hdlc.{
  Chdlc, ParseState, hdlc_packet_complete, hdlc_data, hdlc_escape, hdlc_padding, hdlc_escchar,
  hdlc_xorbyte, close_fcs16, fcs_of, init_fcs16, add_one_byte_to_fcs16, reset, append,
  validate_checksum, callback, end_frame, add_byte, add_byte_in, feed, new_hdlc,
}
use apbridge.Hdlc.Fcs.{fcs_of-append, fcs_of-lt, xor_byte_lt}
use apbridge.Hdlc.Residue.{fcs_low, fcs_high, accepts_iff}

abbrev pub IsByte : ℕ → Type 0
IsByte b = b < 256

-- The running check sequence is that of the buffer, and the buffer holds bytes.
pub record Inv (h : Chdlc) : Type 0 where
  pub checked : h.running_fcs ≡ fcs_of init_fcs16 h.buffer
  pub bytes : All IsByte h.buffer

reset-Inv : (h : Chdlc) → Inv (reset h)
unfolding reset fcs_of
reset-Inv h = record { checked = refl; bytes = tt }

append-Inv : (h : Chdlc) (b : ℕ) → IsByte b → Inv h → Inv (append h b)
unfolding append
append-Inv h b hb v = record {
  checked =
      ap (λ (t : ℕ). add_one_byte_to_fcs16 t b) v.checked
      ∙ unfold fcs_of add_one_byte_to_fcs16 in sym (fcs_of-append init_fcs16 h.buffer (b ∷ []));
  bytes = All-append IsByte h.buffer (b ∷ []) v.bytes (hb, tt);
}

with_state-Inv : (h : Chdlc) (s : ParseState) → Inv h → Inv (record h { state = s })
with_state-Inv h s v = record { checked = v.checked; bytes = v.bytes }

plain-Inv :
    (h : Chdlc) (b : ℕ)
    → IsByte b
    → Inv h
    → Inv
        (if b == hdlc_escchar
          then (let r : Chdlc × Option (List ℕ) = (record h { state = hdlc_escape }, none) in r)
          else if b == hdlc_padding
          then (reset h, end_frame h)
          else (append h b, none)).0
plain-Inv h b hb v = elim (Bool-cases (b == hdlc_escchar)) [
  | inl e ↦ rw e (with_state-Inv h hdlc_escape v)
  | inr e ↦ elim (Bool-cases (b == hdlc_padding)) [
    | inl f ↦ rw (e, f) (reset-Inv h)
    | inr f ↦ rw (e, f) (append-Inv h b hb v)
  ]
]

add_byte_in-Inv :
    (s : ParseState) (h : Chdlc) (b : ℕ) → IsByte b → Inv h → Inv (add_byte_in s h b).0
unfolding add_byte_in
add_byte_in-Inv hdlc_packet_complete h b hb v = plain-Inv h b hb v
add_byte_in-Inv hdlc_data h b hb v = plain-Inv h b hb v
add_byte_in-Inv hdlc_escape h b hb v =
    with_state-Inv (append h (bit_xor b hdlc_xorbyte)) hdlc_data
      (append-Inv h (bit_xor b hdlc_xorbyte) (xor_byte_lt b hdlc_xorbyte hb (omega arith)) v)

feed-Inv : (h : Chdlc) (bs : List ℕ) → All IsByte bs → Inv h → Inv (feed h bs).0
unfolding feed add_byte
feed-Inv h [] hb v = v
feed-Inv h (b ∷ bs) hb v =
    feed-Inv (add_byte_in h.state h b).0 bs hb.1 (add_byte_in-Inv h.state h b hb.0 v)

-- A buffer that holds a packet and the two bytes of its check sequence, low byte first.
abbrev pub Framed : List ℕ → List ℕ → Type 0
Framed buffer p = buffer ≡ p ++ fcs_low (fcs_of init_fcs16 p) ∷ fcs_high (fcs_of init_fcs16 p) ∷ []

-- What has to hold for a packet to be delivered at the end of a frame.
record Accepted (h : Chdlc) (p : List ℕ) : Type 0 where
  handler : h.has_handler ≡ true
  long : 2 < length h.buffer
  residue : close_fcs16 h.running_fcs ≡ 0xf47
  packet : p ≡ take (length h.buffer - 2) h.buffer
  some_bytes : 0 < length p

end_frame-Accepted : (h : Chdlc) (p : List ℕ) → end_frame h ≡ some p → Accepted h p
unfolding end_frame validate_checksum callback
end_frame-Accepted h p e = record {
  handler = ground arith;
  long = ground arith;
  residue = ground arith;
  packet = ground arith;
  some_bytes = ground arith;
}

two_bytes :
    (xs : List ℕ)
    → length xs ≡ 2
    → All IsByte xs
    → (b : ℕ) × (c : ℕ) × (xs ≡ b ∷ c ∷ []) × IsByte b × IsByte c
two_bytes [] e h = absurd (omega arith)
two_bytes (x ∷ []) e h = absurd (omega arith)
two_bytes (x ∷ y ∷ []) e h = (x, y, refl, h.0, h.1.0)
two_bytes (x ∷ y ∷ z ∷ zs) e h = absurd (omega arith)

All-drop : (n : ℕ) (xs : List ℕ) → All IsByte xs → All IsByte (drop n xs)
All-drop zero xs h = h
All-drop (suc n) [] h = h
All-drop (suc n) (x ∷ xs) h = All-drop n xs h.1

fcs_of-trailer :
    (p : List ℕ) (b c : ℕ)
    → fcs_of init_fcs16 (p ++ b ∷ c ∷ [])
      ≡ add_one_byte_to_fcs16 (add_one_byte_to_fcs16 (fcs_of init_fcs16 p) b) c
fcs_of-trailer p b c =
    fcs_of-append init_fcs16 p (b ∷ c ∷ []) ∙ unfold fcs_of add_one_byte_to_fcs16 in refl

residue-Framed :
    (h : Chdlc) (p : List ℕ) (b c : ℕ)
    → Inv h
    → close_fcs16 h.running_fcs ≡ 0xf47
    → h.buffer ≡ p ++ b ∷ c ∷ []
    → IsByte b
    → IsByte c
    → Framed h.buffer p
residue-Framed h p b c v residue whole hb hc =
    let run = v.checked ∙ ap (fcs_of init_fcs16) whole ∙ fcs_of-trailer p b c in
    let (low, high) =
      (accepts_iff (fcs_of init_fcs16 p) b c (fcs_of-lt init_fcs16 p (omega arith)) hb hc).0
        (sym (ap close_fcs16 run) ∙ residue) in
    whole ∙ ap₂ (λ (x y : ℕ). p ++ x ∷ y ∷ []) low high

end_frame_sound :
    (h : Chdlc) (p : List ℕ)
    → Inv h
    → end_frame h ≡ some p
    → Framed h.buffer p × (h.has_handler ≡ true) × (0 < length p)
end_frame_sound h p v e =
    let a = end_frame-Accepted h p e in
    let n : ℕ = length h.buffer - 2 in
    let left : length (drop n h.buffer) ≡ 2 = omega (arith, length-drop n h.buffer, a.long) in
    let (b, c, tail, hb, hc) = two_bytes (drop n h.buffer) left (All-drop n h.buffer v.bytes) in
    let whole : h.buffer ≡ p ++ b ∷ c ∷ [] =
      sym (take-append-drop n h.buffer)
      ∙ ap (◌++◌ (take n h.buffer)) tail
      ∙ ap (λ (l : List ℕ). l ++ b ∷ c ∷ []) (sym a.packet) in
    (residue-Framed h p b c v a.residue whole hb hc, a.handler, a.some_bytes)

-- Only a padding that is not escaped delivers.
add_byte_in_delivers :
    (s : ParseState) (h : Chdlc) (b : ℕ) (p : List ℕ)
    → (add_byte_in s h b).1 ≡ some p
    → (end_frame h ≡ some p) × (b ≡ hdlc_padding) × (s ≢ hdlc_escape)
unfolding add_byte_in
add_byte_in_delivers hdlc_packet_complete h b p e = (ground arith, ground arith, λ f. cc)
add_byte_in_delivers hdlc_data h b p e = (ground arith, ground arith, λ f. cc)
add_byte_in_delivers hdlc_escape h b p e = cc

-- A packet is delivered only at an unescaped padding, to a handler that is set, and only if the
-- buffer holds that packet, which is not empty, followed by the two bytes of its own check
-- sequence, low byte first. This is so after every line of bytes.
pub add_byte_sound :
    (handler : Bool) (line : List ℕ) (b : ℕ) (p : List ℕ)
    → All IsByte line
    → (add_byte (feed (new_hdlc handler) line).0 b).1 ≡ some p
    → let h = (feed (new_hdlc handler) line).0 in
      Framed h.buffer p
      × (h.has_handler ≡ true)
      × (0 < length p)
      × (b ≡ hdlc_padding)
      × (h.state ≢ hdlc_escape)
unfolding add_byte
add_byte_sound handler line b p bytes e =
    let h = (feed (new_hdlc handler) line).0 in
    let v = feed-Inv (new_hdlc handler) line bytes (unfold new_hdlc in reset-Inv _) in
    let (ended, padding, apart) = add_byte_in_delivers h.state h b p e in
    let (frame, on, long) = end_frame_sound h p v ended in (frame, on, long, padding, apart)
