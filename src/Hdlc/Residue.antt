-- ===== src/Hdlc/Residue.antt =====
-- `CHDLC::validateChecksum` looks at the check sequence run over packet and trailer together, and
-- compares it with 0xf47. Here that is shown to be a comparison of the trailer.
use Prim.Native.Nat.{bit_xor}
use apbridge.Prelude.{
  ℕ, ◌+◌, ◌*◌, ◌/◌, ◌%◌, ◌^◌, ◌<◌, ◌≡◌, refl, sym, ap, ◌∙◌, ◌↔◌, true, arith, ◌==◌, ◌||◌, not,
}
use apbridge.Prelude.Bits.{bit_xor_lt_pow, bit_xor_cancel, bit_xor_comm, bit_xor_assoc, xor_left}
use apbridge.Prelude.Checks.{every, every-below}
use apbridge.Hdlc.{add_one_byte_to_fcs16, close_fcs16}
use apbridge.Hdlc.Table.{fcs_entry}
use apbridge.Hdlc.Fcs.{fcs_entry-lt, xor_bytes, xor_byte_lt, add_one_byte_bytes, add_one_byte_lt}

-- The two bytes that the encoder appends for the check sequence `fcs`.
abbrev pub fcs_low : ℕ → ℕ
fcs_low fcs = close_fcs16 fcs % 2 ^ 8

abbrev pub fcs_high : ℕ → ℕ
fcs_high fcs = (close_fcs16 fcs / 2 ^ 8) % 2 ^ 8

close_bytes :
    (h l : ℕ) → h < 256 → l < 256 → close_fcs16 (h * 256 + l) ≡ bit_xor h 255 * 256 + bit_xor l 255
unfolding close_fcs16
close_bytes h l hh hl = omega (
  arith,
  xor_bytes h 255 l 255 hl (omega arith),
  xor_byte_lt h 255 hh (omega arith),
  xor_byte_lt l 255 hl (omega arith),
)

fcs_low_lem : (h l : ℕ) → h < 256 → l < 256 → fcs_low (h * 256 + l) ≡ bit_xor l 255
fcs_low_lem h l hh hl = omega (arith, close_bytes h l hh hl, xor_byte_lt l 255 hl (omega arith))

fcs_high_lem : (h l : ℕ) → h < 256 → l < 256 → fcs_high (h * 256 + l) ≡ bit_xor h 255
fcs_high_lem h l hh hl = omega (
  arith,
  close_bytes h l hh hl,
  xor_byte_lt h 255 hh (omega arith),
  xor_byte_lt l 255 hl (omega arith),
)

-- The table has one entry with high byte 0xf0, and one with high byte 0x0f.
entry_f0 : every (λ i. not (fcs_entry i / 256 == 0xf0) || i == 0x87) 256 ≡ true
unfolding every fcs_entry
entry_f0 = refl

entry_0f : every (λ i. not (fcs_entry i / 256 == 0x0f) || i == 0xff) 256 ≡ true
unfolding every fcs_entry
entry_0f = refl

entry_f0_unique : (i : ℕ) → i < 256 → fcs_entry i / 256 ≡ 0xf0 → i ≡ 0x87
entry_f0_unique i h e = ground (arith, every-below _ 256 i h entry_f0)

entry_0f_unique : (i : ℕ) → i < 256 → fcs_entry i / 256 ≡ 0x0f → i ≡ 0xff
entry_0f_unique i h e = ground (arith, every-below _ 256 i h entry_0f)

entry_87 : fcs_entry 0x87 ≡ 0xf0b7
unfolding fcs_entry
entry_87 = refl

entry_ff : fcs_entry 0xff ≡ 0x0f78
unfolding fcs_entry
entry_ff = refl

-- The other operand, from the result.
xor_solve : (a b c : ℕ) → bit_xor a b ≡ c → b ≡ bit_xor a c
xor_solve a b c e =
    sym (bit_xor_cancel b a) ∙ ap (λ (t : ℕ). bit_xor t a) (bit_xor_comm b a ∙ e) ∙ bit_xor_comm c a

two_steps :
    (h l b c : ℕ)
    → h < 256
    → l < 256
    → b < 256
    → c < 256
    → let e = fcs_entry (bit_xor l b) in
      let d = fcs_entry (bit_xor (bit_xor h (e % 256)) c) in
      add_one_byte_to_fcs16 (add_one_byte_to_fcs16 (h * 256 + l) b) c
      ≡ (d / 256) * 256 + bit_xor (e / 256) (d % 256)
two_steps h l b c hh hl hb hc = rw (add_one_byte_bytes h l b hh hl hb) (
    add_one_byte_bytes (fcs_entry (bit_xor l b) / 256) (bit_xor h (fcs_entry (bit_xor l b) % 256)) c
      (omega (arith, fcs_entry-lt (bit_xor l b) (xor_byte_lt l b hl hb)))
      (xor_byte_lt h _ hh (omega arith)) hc)

-- The trailer of the encoder brings every check sequence to the residue.
trailer_accepted :
    (h l : ℕ)
    → h < 256
    → l < 256
    → close_fcs16 (
        add_one_byte_to_fcs16 (add_one_byte_to_fcs16 (h * 256 + l) (bit_xor l 255)) (bit_xor h 255))
      ≡ 0xf47
trailer_accepted h l hh hl =
    rw
      (
        two_steps h l (bit_xor l 255) (bit_xor h 255) hh hl (xor_byte_lt l 255 hl (omega arith))
            (xor_byte_lt h 255 hh (omega arith)),
        first,
        entry_ff,
        xor_left 0x78 255 h,
      )
      (unfold close_fcs16 fcs_entry in refl)
  where
    first : bit_xor l (bit_xor l 255) ≡ 255
    first = rw (bit_xor_comm l (bit_xor l 255), bit_xor_comm l 255) (bit_xor_cancel 255 l)

close_residue : (x : ℕ) → x < 65536 → close_fcs16 x ≡ 0xf47 → x ≡ 0xf0b8
unfolding close_fcs16
close_residue x h e = sym (bit_xor_cancel x 0xffff) ∙ ap (λ (t : ℕ). bit_xor t 0xffff) turned
  where
    turned : bit_xor x 0xffff ≡ 0xf47
    turned = omega (arith, bit_xor_lt_pow 16 x 0xffff h (omega arith))

-- Only that trailer does.
trailer_unique :
    (h l b c : ℕ)
    → h < 256
    → l < 256
    → b < 256
    → c < 256
    → close_fcs16 (add_one_byte_to_fcs16 (add_one_byte_to_fcs16 (h * 256 + l) b) c) ≡ 0xf47
    → (b ≡ bit_xor l 255) × (c ≡ bit_xor h 255)
trailer_unique h l b c hh hl hb hc accepted =
    (xor_solve l b 255 first, xor_solve (bit_xor h 0x78) c 0x87 second' ∙ bit_xor_assoc h 0x78 0x87)
  where
    i : ℕ
    i = bit_xor l b

    e : ℕ
    e = fcs_entry i

    j : ℕ
    j = bit_xor (bit_xor h (e % 256)) c

    d : ℕ
    d = fcs_entry j

    e_fits : e < 65536
    e_fits = fcs_entry-lt i (xor_byte_lt l b hl hb)

    low_fits : bit_xor (e / 256) (d % 256) < 256
    low_fits = xor_byte_lt (e / 256) (d % 256) (omega (arith, e_fits)) (omega arith)

    residue : (d / 256) * 256 + bit_xor (e / 256) (d % 256) ≡ 0xf0b8
    residue =
        sym (two_steps h l b c hh hl hb hc)
        ∙ close_residue _ (add_one_byte_lt (add_one_byte_to_fcs16 (h * 256 + l) b) c) accepted

    second : j ≡ 0x87
    second =
        entry_f0_unique j (xor_byte_lt _ c (xor_byte_lt h (e % 256) hh (omega arith)) hc)
          (omega (arith, residue, low_fits))

    d_lem : d ≡ 0xf0b7
    d_lem = ap fcs_entry second ∙ entry_87

    d_low : d % 256 ≡ 0xb7
    d_low = omega (arith, d_lem)

    low : bit_xor (e / 256) (d % 256) ≡ 0xb8
    low = omega (arith, residue, low_fits, d_lem)

    high : bit_xor 0xb7 (e / 256) ≡ 0xb8
    high = bit_xor_comm 0xb7 (e / 256) ∙ ap (λ (t : ℕ). bit_xor (e / 256) t) (sym d_low) ∙ low

    first : i ≡ 255
    first = entry_0f_unique i (xor_byte_lt l b hl hb) (xor_solve 0xb7 (e / 256) 0xb8 high)

    second' : bit_xor (bit_xor h 0x78) c ≡ 0x87
    second' =
        ap (λ (t : ℕ). bit_xor (bit_xor h (t % 256)) c) (sym (ap fcs_entry first ∙ entry_ff))
        ∙ second

-- After any check sequence `fcs`, two more bytes bring the running check to the value that
-- `validateChecksum` wants exactly when they are the two bytes of the closed `fcs`, low byte first.
pub accepts_iff :
    (fcs b c : ℕ)
    → fcs < 65536
    → b < 256
    → c < 256
    → (close_fcs16 (add_one_byte_to_fcs16 (add_one_byte_to_fcs16 fcs b) c) ≡ 0xf47)
      ↔ ((b ≡ fcs_low fcs) × (c ≡ fcs_high fcs))
accepts_iff fcs b c h hb hc =
    rw
      (
        split,
        fcs_low_lem (fcs / 256) (fcs % 256) (omega arith) (omega arith),
        fcs_high_lem (fcs / 256) (fcs % 256) (omega arith) (omega arith),
      )
      (trailer_unique (fcs / 256) (fcs % 256) b c (omega arith) (omega arith) hb hc, back)
  where
    split : fcs ≡ (fcs / 256) * 256 + fcs % 256
    split = omega arith

    back :
        (b ≡ bit_xor (fcs % 256) 255) × (c ≡ bit_xor (fcs / 256) 255)
        → close_fcs16
            (add_one_byte_to_fcs16 (add_one_byte_to_fcs16 ((fcs / 256) * 256 + fcs % 256) b) c)
          ≡ 0xf47
    back (p, q) = rw (p, q) (trailer_accepted (fcs / 256) (fcs % 256) (omega arith) (omega arith))
