-- ===== src/Hdlc/Reference.antt =====
-- The check sequence bit by bit: the reflected polynomial 0x8408 of the CRC that PPP and X.25 use.
-- It shares no code and no table with APInterface/HDLC.cpp.
use Prim.Native.Nat.{bit_xor}
use native.Mathlib.Nat.{pow-suc}
use apbridge.Prelude.{
  ℕ, zero, suc, ◌+◌, ◌*◌, ◌/◌, ◌%◌, ◌^◌, ◌<◌, ◌≡◌, refl, sym, ap, ◌∙◌, true, List, [], ◌∷◌, arith,
  ◌==◌, ==→eq, if◌then◌else◌, All,
}
use apbridge.Prelude.Bits.{
  bit_xor_step, bit_xor_assoc, zero-bit_xor, bit_xor_lt_pow, xor_swap, xor_both,
}
use apbridge.Prelude.Checks.{every, every-below}
use apbridge.Hdlc.{add_one_byte_to_fcs16, close_fcs16, fcs_of, compute_fcs16}
use apbridge.Hdlc.Table.{fcs_entry}
use apbridge.Hdlc.Fcs.{
  xor_word_byte, xor_byte_lt, add_one_byte_lem, add_one_byte_lt, fcs_of_step, fcs_of-lt,
}

-- Shift one bit out at the low end; where it is set, take the polynomial in.
crc_bit : ℕ → ℕ
crc_bit x = if x % 2 == 1 then bit_xor (x / 2) 0x8408 else x / 2

crc_bits : ℕ → ℕ → ℕ
crc_bits zero x = x
crc_bits (suc n) x = crc_bits n (crc_bit x)

pub reference_crc : ℕ → List ℕ → ℕ
reference_crc x [] = x
reference_crc x (b ∷ bs) = reference_crc (crc_bits 8 (bit_xor x b)) bs

-- The bits of the result are turned over at the end.
pub reference_fcs : List ℕ → ℕ
reference_fcs bs = bit_xor (reference_crc 0xffff bs) 0xffff

xor-half : (x y : ℕ) → bit_xor x y / 2 ≡ bit_xor (x / 2) (y / 2)
xor-half x y = omega (arith, bit_xor_step x y)

xor-parity : (x y : ℕ) → bit_xor x y % 2 ≡ (x + y) % 2
xor-parity x y = omega (arith, bit_xor_step x y)

-- One bit step is linear over the exclusive or.
crc_bit-xor : (x y : ℕ) → crc_bit (bit_xor x y) ≡ bit_xor (crc_bit x) (crc_bit y)
unfolding crc_bit
crc_bit-xor x y = ground (
  arith,
  xor-half x y,
  xor-parity x y,
  xor_swap (x / 2) (y / 2) 0x8408,
  bit_xor_assoc (x / 2) (y / 2) 0x8408,
  xor_both (x / 2) (y / 2) 0x8408,
)

crc_bits-xor : (n x y : ℕ) → crc_bits n (bit_xor x y) ≡ bit_xor (crc_bits n x) (crc_bits n y)
unfolding crc_bits
crc_bits-xor zero x y = refl
crc_bits-xor (suc n) x y = rw (crc_bit-xor x y) (crc_bits-xor n (crc_bit x) (crc_bit y))

-- Zero bits are shifted out unchanged.
crc_bits_shift : (n h : ℕ) → crc_bits n (h * 2 ^ n) ≡ h
unfolding crc_bits
crc_bits_shift zero h = omega arith
crc_bits_shift (suc n) h = rw even (crc_bits_shift n h)
  where
    twice : h * 2 ^ suc n ≡ 2 * (h * 2 ^ n)
    twice = omega (arith, ap (λ (t : ℕ). h * t) (pow-suc 2 n))

    even : crc_bit (h * 2 ^ suc n) ≡ h * 2 ^ n
    even = unfold crc_bit in ground (arith, twice)

-- The table of the program holds the eight bit steps of its index.
table_lem : every (λ i. fcs_entry i == crc_bits 8 i) 256 ≡ true
unfolding every fcs_entry crc_bits crc_bit
table_lem = refl

fcs_entry-crc_bits : (i : ℕ) → i < 256 → fcs_entry i ≡ crc_bits 8 i
fcs_entry-crc_bits i h = ==→eq _ _ (every-below _ 256 i h table_lem)

crc_bits_word : (h l : ℕ) → l < 256 → crc_bits 8 (h * 256 + l) ≡ bit_xor h (crc_bits 8 l)
crc_bits_word h l hl =
    rw (sym split)
      (crc_bits-xor 8 (h * 256) l ∙ ap (λ (t : ℕ). bit_xor t (crc_bits 8 l)) (crc_bits_shift 8 h))
  where
    split : bit_xor (h * 256) l ≡ h * 256 + l
    split =
        ap (λ (t : ℕ). bit_xor t l) (omega arith)
        ∙ xor_word_byte h 0 l (omega arith) hl
        ∙ ap (λ (t : ℕ). h * 256 + t) (zero-bit_xor l)

-- One step by the table is eight steps by bits.
step_lem : (x b : ℕ) → x < 65536 → b < 256 → add_one_byte_to_fcs16 x b ≡ crc_bits 8 (bit_xor x b)
step_lem x b hx hb = rw split (
    add_one_byte_lem (x / 256) (x % 256) b (omega arith) (omega arith) hb
    ∙ ap (λ (t : ℕ). bit_xor (x / 256) t) (fcs_entry-crc_bits _ low)
    ∙ sym (crc_bits_word (x / 256) _ low)
    ∙ ap (crc_bits 8) (sym (xor_word_byte (x / 256) (x % 256) b (omega arith) hb)))
  where
    split : x ≡ (x / 256) * 256 + x % 256
    split = omega arith

    low : bit_xor (x % 256) b < 256
    low = xor_byte_lt (x % 256) b (omega arith) hb

fcs_of-reference :
    (x : ℕ) (bs : List ℕ) → x < 65536 → All (λ b. b < 256) bs → fcs_of x bs ≡ reference_crc x bs
unfolding reference_crc
fcs_of-reference x [] hx h = unfold fcs_of in refl
fcs_of-reference x (b ∷ bs) hx h =
    rw (fcs_of_step x b bs, ← step_lem x b hx h.0)
      (fcs_of-reference (add_one_byte_to_fcs16 x b) bs (add_one_byte_lt x b) h.1)

-- `computeFCS16`, the loop over the table, computes on every byte sequence the check sequence that
-- the polynomial defines bit by bit.
pub compute_fcs16-reference :
    (bs : List ℕ) → All (λ b. b < 256) bs → compute_fcs16 bs ≡ reference_fcs bs
unfolding compute_fcs16 close_fcs16 reference_fcs
compute_fcs16-reference bs h = rw (← fcs_of-reference 0xffff bs (omega arith) h) (
    omega (
      arith,
      bit_xor_lt_pow 16 (fcs_of 0xffff bs) 0xffff (fcs_of-lt 0xffff bs (omega arith)) (omega arith),
    ))
