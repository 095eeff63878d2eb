-- ===== src/Hdlc/Examples.antt =====
-- The theorems on APInterface/HDLC.cpp at concrete packets.
use apbridge.Prelude.{
  ◌≡◌, ◌≢◌, ◌↔◌, ◌≤◌, refl, true, List, [], ◌∷◌, ◌++◌, some, length, arith, ℕ, ◌<◌,
}
use apbridge.Hdlc.{
  compute_fcs16, close_fcs16, add_one_byte_to_fcs16, encode_hdlc, feed, new_hdlc, reset, add_byte,
  hdlc_padding, hdlc_escape, add_byte_in, append, end_frame, callback, validate_checksum, collect,
  fcs_of, is_special,
}
use apbridge.Hdlc.Table.{fcs_entry}
use apbridge.Hdlc.Reference.{reference_fcs, compute_fcs16-reference}
use apbridge.Hdlc.Residue.{accepts_iff, fcs_low, fcs_high}
use apbridge.Hdlc.Stream.{encode_all, nonempty, feed-encode_all, feed_resync}
use apbridge.Hdlc.Stream.Sound.{Framed, add_byte_sound}

abbrev sample : List ℕ
sample = 0x31 ∷ 0x7e ∷ 0x33 ∷ []

fcs_text :
    compute_fcs16 (0x31 ∷ 0x32 ∷ 0x33 ∷ 0x34 ∷ 0x35 ∷ 0x36 ∷ 0x37 ∷ 0x38 ∷ 0x39 ∷ []) ≡ 0x906e
unfolding compute_fcs16 close_fcs16 fcs_of fcs_entry
fcs_text = refl

compute_fcs16-reference_example : compute_fcs16 sample ≡ reference_fcs sample
compute_fcs16-reference_example =
    compute_fcs16-reference sample (omega arith, (omega arith, (omega arith, tt)))

accepts_iff_example :
    (close_fcs16 (add_one_byte_to_fcs16 (add_one_byte_to_fcs16 0x1234 0x12) 0x34) ≡ 0xf47)
    ↔ ((0x12 ≡ fcs_low 0x1234) × (0x34 ≡ fcs_high 0x1234))
accepts_iff_example = accepts_iff 0x1234 0x12 0x34 (omega arith) (omega arith) (omega arith)

feed-encode_all_example :
    feed (new_hdlc true) (encode_all (sample ∷ [] ∷ sample ∷ []))
    ≡ (new_hdlc true, nonempty (sample ∷ [] ∷ sample ∷ []))
feed-encode_all_example = feed-encode_all (sample ∷ [] ∷ sample ∷ [])

feed_resync_example :
    (before : List (List ℕ)) × (feed (new_hdlc true) (hdlc_padding ∷ encode_hdlc sample)
      ≡ (reset (new_hdlc true), before ++ sample ∷ []))
    × (length before ≤ 1)
feed_resync_example = feed_resync (new_hdlc true) sample on some_text
  where
    on : (new_hdlc true).has_handler ≡ true
    on = unfold new_hdlc reset in refl

    some_text : sample ≢ []
    some_text e = cc

abbrev line : List ℕ
line = 0x41 ∷ 0xf5 ∷ 0xa3 ∷ []

add_byte_sound_example :
    let h = (feed (new_hdlc true) line).0 in
    Framed h.buffer (0x41 ∷ [])
    × (h.has_handler ≡ true)
    × (0 < length {A = ℕ} (0x41 ∷ []))
    × (hdlc_padding ≡ hdlc_padding)
    × (h.state ≢ hdlc_escape)
add_byte_sound_example =
    add_byte_sound true line hdlc_padding (0x41 ∷ [])
      (omega arith, (omega arith, (omega arith, tt))) ended
  where
    ended : (add_byte (feed (new_hdlc true) line).0 hdlc_padding).1 ≡ some (0x41 ∷ [])
    ended =
        unfold add_byte add_byte_in add_one_byte_to_fcs16 close_fcs16 is_special fcs_entry feed
          new_hdlc reset append end_frame callback validate_checksum collect in
        refl
