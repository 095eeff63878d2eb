-- ===== src/Hdlc/Stream.antt =====
-- Whole frames of APInterface/HDLC.cpp: `encodeHDLC` against `CHDLC`, on one packet, on a line of
-- packets, and on any line at all.
pub mod Sound
use apbridge.Prelude.{
  ℕ, suc, ◌+◌, ◌-◌, ◌<◌, ◌≤◌, ◌≡◌, ◌≢◌, refl, sym, ap, ◌∙◌, Bool, true, false, List, [], ◌∷◌, ◌++◌,
  append_assoc, Option, none, some, arith, length, length-append, take-length_append, ltb, ◌&&◌,
  if◌then◌else◌, map,
}
use apbridge.Hdlc.{
  Chdlc, ParseState, hdlc_packet_complete, hdlc_data, hdlc_escape, hdlc_padding, append_hdlc,
  encode_hdlc, compute_fcs16, close_fcs16, fcs_of, init_fcs16, add_one_byte_to_fcs16, reset,
  validate_checksum, callback, end_frame, add_byte, add_byte_in, append, collect, feed, new_hdlc,
}
use apbridge.Hdlc.Fcs.{fcs_of-append, fcs_of-lt}
use apbridge.Hdlc.Residue.{fcs_low, fcs_high, accepts_iff}
use apbridge.Hdlc.Frames.{
  escaped, escaped-append, append_hdlc-escaped, absorbed, state_after, state_after-ne, feed-append,
  feed-escaped, padding_byte, collect-append,
}

-- The call of the handler for a packet whose check sequence is right.
abbrev pub delivered : Bool → List ℕ → Option (List ℕ)
delivered handler p = if handler && ltb 0 (length p) then some p else none

abbrev trailer : List ℕ → List ℕ
trailer p = fcs_low (fcs_of init_fcs16 p) ∷ fcs_high (fcs_of init_fcs16 p) ∷ []

encode_hdlc_lem :
    (p : List ℕ) → encode_hdlc p ≡ hdlc_padding ∷ (escaped (p ++ trailer p) ++ hdlc_padding ∷ [])
unfolding encode_hdlc compute_fcs16
encode_hdlc_lem p = rw (append_hdlc-escaped, append_hdlc-escaped, escaped-append p (trailer p)) refl

-- The residue after the packet and its trailer.
trailer_residue : (p : List ℕ) → close_fcs16 (fcs_of init_fcs16 (p ++ trailer p)) ≡ 0xf47
trailer_residue p = rw (fcs_of-append init_fcs16 p (trailer p)) residue
  where
    residue : close_fcs16 (fcs_of (fcs_of init_fcs16 p) (trailer p)) ≡ 0xf47
    residue =
        unfold fcs_of add_one_byte_to_fcs16 in
        (accepts_iff (fcs_of init_fcs16 p) (fcs_low (fcs_of init_fcs16 p))
            (fcs_high (fcs_of init_fcs16 p)) (fcs_of-lt init_fcs16 p (omega arith)) (omega arith)
            (omega arith)).1
          (refl, refl)

-- The end of a frame that carries a packet and its trailer.
end_frame-trailer :
    (h : Chdlc) (p : List ℕ)
    → h.buffer ≡ p ++ trailer p
    → h.running_fcs ≡ fcs_of init_fcs16 (p ++ trailer p)
    → end_frame h ≡ delivered h.has_handler p
unfolding end_frame validate_checksum callback
end_frame-trailer h p e f =
    rw (e, f, trailer_residue p, long, short, take-length_append p (trailer p)) (ground arith)
  where
    long : length (p ++ trailer p) ≡ length p + 2
    long = length-append p (trailer p)

    short : length p + 2 - 2 ≡ length p
    short = omega arith

feed_padding :
    (h : Chdlc)
    → h.state ≢ hdlc_escape
    → feed h (hdlc_padding ∷ []) ≡ (reset h, collect (end_frame h) [])
unfolding feed add_byte
feed_padding h ne = rw (padding_byte h.state h ne) refl

-- A frame, from a decoder whose buffer is empty.
feed_frame :
    (h : Chdlc) (p : List ℕ)
    → feed (reset h) (escaped (p ++ trailer p) ++ hdlc_padding ∷ [])
      ≡ (reset h, collect (delivered h.has_handler p) [])
unfolding reset
feed_frame h p =
    rw
      (
        feed-append,
        feed-escaped hdlc_packet_complete (reset h) (p ++ trailer p) (λ e. cc),
        feed_padding full (state_after-ne hdlc_packet_complete (p ++ trailer p) (λ e. cc)),
        end_frame-trailer full p refl refl,
      )
      refl
  where
    full : Chdlc
    full = absorbed (reset h) (state_after hdlc_packet_complete (p ++ trailer p)) (p ++ trailer p)

-- The opening padding ends whatever stood in the buffer.
feed_encoded :
    (h : Chdlc) (p : List ℕ)
    → h.state ≢ hdlc_escape
    → feed h (encode_hdlc p)
      ≡ (reset h, collect (end_frame h) (collect (delivered h.has_handler p) []))
unfolding add_byte
feed_encoded h p ne =
    rw (encode_hdlc_lem p, feed_cons) (rw (padding_byte h.state h ne) (rw (feed_frame h p) refl))
  where
    feed_cons :
        (h : Chdlc) (b : ℕ) (bs : List ℕ)
        → feed h (b ∷ bs)
          ≡ ((feed (add_byte h b).0 bs).0, collect (add_byte h b).1 (feed (add_byte h b).0 bs).1)
    feed_cons h b bs = unfold feed in refl

end_frame-reset : (h : Chdlc) → end_frame (reset h) ≡ none
unfolding end_frame reset
end_frame-reset h = refl

-- The packets that reach the handler: all but the empty ones.
pub nonempty : List (List ℕ) → List (List ℕ)
nonempty [] = []
nonempty ([] ∷ ps) = nonempty ps
nonempty ((b ∷ bs) ∷ ps) = (b ∷ bs) ∷ nonempty ps

pub encode_all : List (List ℕ) → List ℕ
encode_all [] = []
encode_all (p ∷ ps) = encode_hdlc p ++ encode_all ps

-- One packet ahead of what follows.
feed_encoded_reset :
    (h : Chdlc) (p : List ℕ)
    → h.has_handler ≡ true
    → feed (reset h) (encode_hdlc p) ≡ (reset h, nonempty (p ∷ []))
unfolding reset nonempty collect
feed_encoded_reset h [] on = rw (feed_encoded (reset h) [] (λ e. cc), end_frame-reset h, on) refl
feed_encoded_reset h (b ∷ bs) on =
    rw (feed_encoded (reset h) (b ∷ bs) (λ e. cc), end_frame-reset h, on) (ground arith)

nonempty-cons :
    (p : List ℕ) (ps : List (List ℕ)) → nonempty (p ∷ []) ++ nonempty ps ≡ nonempty (p ∷ ps)
unfolding nonempty
nonempty-cons [] ps = refl
nonempty-cons (b ∷ bs) ps = refl

feed-encode_all-reset :
    (h : Chdlc) (ps : List (List ℕ))
    → h.has_handler ≡ true
    → feed (reset h) (encode_all ps) ≡ (reset h, nonempty ps)
unfolding encode_all
feed-encode_all-reset h [] on = unfold feed nonempty in refl
feed-encode_all-reset h (p ∷ ps) on =
    rw (feed-append, feed_encoded_reset h p on, feed-encode_all-reset h ps on, nonempty-cons p ps)
      refl

-- What `encodeHDLC` writes for any packets, `CHDLC` reads back: from a new decoder with a handler,
-- exactly the packets that are not empty are delivered, in order, and the decoder is new again.
pub feed-encode_all :
    (ps : List (List ℕ)) → feed (new_hdlc true) (encode_all ps) ≡ (new_hdlc true, nonempty ps)
unfolding new_hdlc
feed-encode_all ps = feed-encode_all-reset _ ps refl

-- What one padding leaves, in each state.
record Padded (h h' : Chdlc) (out : Option (List ℕ)) : Type 0 where
  apart : h'.state ≢ hdlc_escape
  same : reset h' ≡ reset h
  handler : h'.has_handler ≡ h.has_handler
  few : length (collect out (collect (end_frame h') [])) ≤ 1

length-collect-le : (o : Option (List ℕ)) → length (collect o []) ≤ 1
unfolding collect
length-collect-le none = omega arith
length-collect-le (some p) = omega arith

padding_resets : (h : Chdlc) → Padded h (reset h) (end_frame h)
unfolding reset
padding_resets h = record {
  apart = λ e. cc;
  same = refl;
  handler = refl;
  few = rw (end_frame-reset h) (unfold collect in length-collect-le (end_frame h));
}

padding_escaped : (h : Chdlc) → Padded h (add_byte_in hdlc_escape h hdlc_padding).0 none
unfolding add_byte_in append reset
padding_escaped h = record {
  apart = λ e. cc;
  same = refl;
  handler = refl;
  few = unfold collect in length-collect-le (end_frame _);
}

add_byte_in-Padded :
    (s : ParseState) (h : Chdlc)
    → Padded h (add_byte_in s h hdlc_padding).0 (add_byte_in s h hdlc_padding).1
add_byte_in-Padded hdlc_packet_complete h =
    rw (padding_byte hdlc_packet_complete h (λ e. cc)) (padding_resets h)
add_byte_in-Padded hdlc_data h = rw (padding_byte hdlc_data h (λ e. cc)) (padding_resets h)
add_byte_in-Padded hdlc_escape h = unfold add_byte_in in padding_escaped h

collect-some : (p : List ℕ) → collect (some p) [] ≡ p ∷ []
unfolding collect
collect-some p = refl

delivered-nonempty : (on : Bool) (p : List ℕ) → on ≡ true → p ≢ [] → delivered on p ≡ some p
delivered-nonempty on [] e ne = absurd (ne refl)
delivered-nonempty on (b ∷ bs) e ne = rw e (ground arith)

-- Whatever the decoder has read before, in whatever state it stands, a padding and a whole frame
-- bring it back: the packet is delivered last, behind at most one packet that the earlier bytes
-- make up, and the decoder is reset.
pub feed_resync :
    (h : Chdlc) (p : List ℕ)
    → h.has_handler ≡ true
    → p ≢ []
    → (before : List (List ℕ)) × (feed h (hdlc_padding ∷ encode_hdlc p)
        ≡ (reset h, before ++ p ∷ []))
      × (length before ≤ 1)
unfolding feed add_byte
feed_resync h p on ne =
    let padded = add_byte_in-Padded h.state h in
    (
      collect out (collect (end_frame h') []),
      rw
          (
            feed_encoded h' p padded.apart,
            padded.same,
            padded.handler,
            delivered-nonempty h.has_handler p on ne,
            collect-some p,
          )
          (ap (λ (l : List (List ℕ)). (reset h, l))
            (ap (collect out) (collect-append (end_frame h') [] (p ∷ []))
              ∙ collect-append out (collect (end_frame h') []) (p ∷ []))),
      padded.few,
    )
  where
    h' : Chdlc
    h' = (add_byte_in h.state h hdlc_padding).0

    out : Option (List ℕ)
    out = (add_byte_in h.state h hdlc_padding).1
