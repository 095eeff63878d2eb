-- ===== src/Hdlc/Fcs.antt =====
-- How the frame check sequence of APInterface/HDLC.cpp moves by one byte, in the two bytes of it.
use Prim.Native.Nat.{bit_xor}
use apbridge.Prelude.{
  ℕ, ◌+◌, ◌*◌, ◌/◌, ◌%◌, ◌^◌, ◌<◌, ◌≡◌, refl, ap, true, List, [], ◌∷◌, ◌++◌, arith, ltb, ltb→lt,
}
use apbridge.Prelude.Bits.{bit_xor_fields, bit_xor_lt_pow, bit_xor-zero, zero-bit_xor}
use apbridge.Prelude.Checks.{every, every-below}
use apbridge.Hdlc.{add_one_byte_to_fcs16, fcs_of}
use apbridge.Hdlc.Table.{fcs_entry}

entries_fit : every (λ i. ltb (fcs_entry i) 65536) 256 ≡ true
unfolding every fcs_entry
entries_fit = refl

pub fcs_entry-lt : (i : ℕ) → i < 256 → fcs_entry i < 65536
fcs_entry-lt i h = ltb→lt (fcs_entry i) 65536 (every-below _ 256 i h entries_fit)

-- The exclusive or of two words, byte by byte.
pub xor_bytes :
    (p q r s : ℕ)
    → r < 256
    → s < 256
    → bit_xor (p * 256 + r) (q * 256 + s) ≡ bit_xor p q * 256 + bit_xor r s
xor_bytes p q r s h g = bit_xor_fields 8 p q r s h g

-- With one operand a byte, the high byte of the other stays.
pub xor_word_byte :
    (p r s : ℕ) → r < 256 → s < 256 → bit_xor (p * 256 + r) s ≡ p * 256 + bit_xor r s
xor_word_byte p r s h g = ground (arith, xor_bytes p 0 r s h g, bit_xor-zero p)

pub xor_byte_lt : (a b : ℕ) → a < 256 → b < 256 → bit_xor a b < 256
xor_byte_lt a b h g = bit_xor_lt_pow 8 a b h g

pub add_one_byte_lt : (fcs b : ℕ) → add_one_byte_to_fcs16 fcs b < 65536
unfolding add_one_byte_to_fcs16
add_one_byte_lt fcs b =
    bit_xor_lt_pow 16 ((fcs % 2 ^ 16) / 2 ^ 8) (fcs_entry (bit_xor fcs b % 2 ^ 8)) (omega arith)
      (fcs_entry-lt (bit_xor fcs b % 2 ^ 8) (omega arith))

-- The step on a check sequence with high byte `h` and low byte `l`.
pub add_one_byte_lem :
    (h l b : ℕ)
    → h < 256
    → l < 256
    → b < 256
    → add_one_byte_to_fcs16 (h * 256 + l) b ≡ bit_xor h (fcs_entry (bit_xor l b))
unfolding add_one_byte_to_fcs16
add_one_byte_lem h l b hh hl hb = rw (xor_word_byte h l b hl hb, high, low) refl
  where
    high : ((h * 256 + l) % 2 ^ 16) / 2 ^ 8 ≡ h
    high = omega arith

    low : (h * 256 + bit_xor l b) % 2 ^ 8 ≡ bit_xor l b
    low = omega (arith, xor_byte_lt l b hl hb)

-- The same in the two bytes of the table's entry.
pub add_one_byte_bytes :
    (h l b : ℕ)
    → h < 256
    → l < 256
    → b < 256
    → let e = fcs_entry (bit_xor l b) in
      add_one_byte_to_fcs16 (h * 256 + l) b ≡ (e / 256) * 256 + bit_xor h (e % 256)
add_one_byte_bytes h l b hh hl hb = rw (add_one_byte_lem h l b hh hl hb) (
    omega (
      arith,
      ap (λ (t : ℕ). bit_xor h t) split,
      xor_bytes 0 (e / 256) h (e % 256) hh (omega arith),
      zero-bit_xor (e / 256),
      ap (λ (t : ℕ). bit_xor t ((e / 256) * 256 + e % 256)) lift,
    ))
  where
    e : ℕ
    e = fcs_entry (bit_xor l b)

    split : e ≡ (e / 256) * 256 + e % 256
    split = omega arith

    lift : h ≡ 0 * 256 + h
    lift = omega arith

pub fcs_of-append : (fcs : ℕ) (xs ys : List ℕ) → fcs_of fcs (xs ++ ys) ≡ fcs_of (fcs_of fcs xs) ys
unfolding fcs_of add_one_byte_to_fcs16
fcs_of-append fcs [] ys = refl
fcs_of-append fcs (x ∷ xs) ys = fcs_of-append (add_one_byte_to_fcs16 fcs x) xs ys

-- `computeFCS16` and the running check sequence of the decoder take the same step.
pub fcs_of_step :
    (fcs b : ℕ) (bs : List ℕ) → fcs_of fcs (b ∷ bs) ≡ fcs_of (add_one_byte_to_fcs16 fcs b) bs
unfolding fcs_of add_one_byte_to_fcs16
fcs_of_step fcs b bs = refl

pub fcs_of-lt : (fcs : ℕ) (bs : List ℕ) → fcs < 65536 → fcs_of fcs bs < 65536
unfolding fcs_of add_one_byte_to_fcs16
fcs_of-lt fcs [] h = h
fcs_of-lt fcs (b ∷ bs) h = fcs_of-lt (add_one_byte_to_fcs16 fcs b) bs (add_one_byte_lt fcs b)
