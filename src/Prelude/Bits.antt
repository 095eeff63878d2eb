-- ===== src/Prelude/Bits.antt =====
-- Laws of the exclusive or at every width, from the digit recursion that the native operation
-- stands for.
use apbridge.Prelude.Order.{lt_wf}
use Prim.Native.Nat.{
  ℕ, zero, suc, ◌+◌, ◌*◌, ◌/◌, ◌%◌, ◌^◌, ◌≤◌, ◌<◌, bit_xor, digits, differ, bit_xor-bitwise,
}
use mathlib.Core.Path.{◌≡◌, refl, sym, ◌∙◌}
use mathlib.Core.WellFounded
use native.Mathlib.Nat.{pow-suc}
use native.Mathlib.Omega.{arith}

abbrev xor_digits : ℕ → ℕ → ℕ → ℕ
xor_digits n a b = digits (λ b. b) differ n a b

xor_digits_fuel : (n m a b : ℕ) → a ≤ n → a ≤ m → xor_digits n a b ≡ xor_digits m a b
xor_digits_fuel zero zero a b p q = refl
xor_digits_fuel zero (suc m) zero b p q = refl
xor_digits_fuel zero (suc m) (suc a) b p q = absurd (omega arith)
xor_digits_fuel (suc n) zero zero b p q = refl
xor_digits_fuel (suc n) zero (suc a) b p q = absurd (omega arith)
xor_digits_fuel (suc n) (suc m) zero b p q = refl
xor_digits_fuel (suc n) (suc m) (suc a) b p q =
    rw (xor_digits_fuel n m (suc a / 2) (b / 2) (omega arith) (omega arith))

-- The exclusive or of two digits is the lowest digit of their sum.
differ-mod : (x y : ℕ) → x < 2 → y < 2 → differ x y ≡ (x + y) % 2
differ-mod zero y h g = omega arith
differ-mod (suc zero) zero h g = refl
differ-mod (suc zero) (suc zero) h g = refl
differ-mod (suc zero) (suc (suc y)) h g = absurd (omega arith)
differ-mod (suc (suc x)) y h g = absurd (omega arith)

pub zero-bit_xor : (b : ℕ) → bit_xor 0 b ≡ b
zero-bit_xor b = bit_xor-bitwise 0 b

pub bit_xor_step : (a b : ℕ) → bit_xor a b ≡ bit_xor (a / 2) (b / 2) * 2 + (a + b) % 2
bit_xor_step zero b = omega (arith, zero-bit_xor b, zero-bit_xor (b / 2))
bit_xor_step (suc a) b = omega (
  arith,
  bit_xor-bitwise (suc a) b,
  bit_xor-bitwise (suc a / 2) (b / 2),
  xor_digits_fuel a (suc a / 2) (suc a / 2) (b / 2) (omega arith) (omega arith),
  differ-mod (suc a % 2) (b % 2) (omega arith) (omega arith),
)

pub bit_xor-zero : (a : ℕ) → bit_xor a 0 ≡ a
bit_xor-zero a = WellFounded.induction lt_wf {C = λ k. bit_xor k 0 ≡ k} a λ k ih. step k ih
  where
    step : (k : ℕ) → ((m : ℕ) → m < k → bit_xor m 0 ≡ m) → bit_xor k 0 ≡ k
    step zero ih = zero-bit_xor 0
    step (suc k) ih = omega (arith, bit_xor_step (suc k) 0, ih (suc k / 2) (omega arith))

pub bit_xor_self : (a : ℕ) → bit_xor a a ≡ 0
bit_xor_self a = WellFounded.induction lt_wf {C = λ k. bit_xor k k ≡ 0} a λ k ih. step k ih
  where
    step : (k : ℕ) → ((m : ℕ) → m < k → bit_xor m m ≡ 0) → bit_xor k k ≡ 0
    step zero ih = zero-bit_xor 0
    step (suc k) ih = omega (arith, bit_xor_step (suc k) (suc k), ih (suc k / 2) (omega arith))

xor_comm_below : (n a b : ℕ) → a + b ≤ n → bit_xor a b ≡ bit_xor b a
xor_comm_below n zero b h = zero-bit_xor b ∙ sym (bit_xor-zero b)
xor_comm_below zero (suc a) b h = absurd (omega arith)
xor_comm_below (suc n) (suc a) b h = omega (
  arith,
  bit_xor_step (suc a) b,
  bit_xor_step b (suc a),
  xor_comm_below n (suc a / 2) (b / 2) (omega arith),
)

pub bit_xor_comm : (a b : ℕ) → bit_xor a b ≡ bit_xor b a
bit_xor_comm a b = xor_comm_below (a + b) a b (omega arith)

xor_assoc_below : (n a b c : ℕ) → a ≤ n → bit_xor (bit_xor a b) c ≡ bit_xor a (bit_xor b c)
xor_assoc_below n zero b c h = rw (zero-bit_xor b, zero-bit_xor (bit_xor b c))
xor_assoc_below zero (suc a) b c h = absurd (omega arith)
xor_assoc_below (suc n) (suc a) b c h = ground (
  arith,
  bit_xor_step (bit_xor (suc a) b) c,
  bit_xor_step (suc a) (bit_xor b c),
  bit_xor_step (suc a) b,
  bit_xor_step b c,
  xor_assoc_below n (suc a / 2) (b / 2) (c / 2) (omega arith),
)

pub bit_xor_assoc : (a b c : ℕ) → bit_xor (bit_xor a b) c ≡ bit_xor a (bit_xor b c)
bit_xor_assoc a b c = xor_assoc_below a a b c (omega arith)

-- Twice the same operand cancels.
pub bit_xor_cancel : (a b : ℕ) → bit_xor (bit_xor a b) b ≡ a
bit_xor_cancel a b = rw (bit_xor_assoc, bit_xor_self) (bit_xor-zero a)

pub xor_swap : (a b p : ℕ) → bit_xor (bit_xor a p) b ≡ bit_xor (bit_xor a b) p
xor_swap a b p = rw (bit_xor_assoc a p b, bit_xor_comm p b) (sym (bit_xor_assoc a b p))

pub xor_both : (a b p : ℕ) → bit_xor (bit_xor a p) (bit_xor b p) ≡ bit_xor a b
xor_both a b p =
    rw
      (
        ← bit_xor_assoc (bit_xor a p) b p,
        xor_swap a b p,
        bit_xor_assoc (bit_xor a b) p p,
        bit_xor_self p,
      )
      (bit_xor-zero (bit_xor a b))

-- The same with the shared operand in front.
pub xor_left : (a b p : ℕ) → bit_xor (bit_xor p a) (bit_xor p b) ≡ bit_xor a b
xor_left a b p = rw (bit_xor_comm p a, bit_xor_comm p b) (xor_both a b p)

field_step : (k p : ℕ) → p * 2 ^ suc k ≡ 2 * (p * 2 ^ k)
field_step k p = rw (pow-suc 2 k) (omega arith)

-- The operation works on the fields of a word apart.
pub bit_xor_fields :
    (k p q r s : ℕ)
    → r < 2 ^ k
    → s < 2 ^ k
    → bit_xor (p * 2 ^ k + r) (q * 2 ^ k + s) ≡ bit_xor p q * 2 ^ k + bit_xor r s
bit_xor_fields zero p q r s h g = ground (arith, zero-bit_xor 0)
bit_xor_fields (suc k) p q r s h g = ground (
  arith,
  bit_xor_step (p * 2 ^ suc k + r) (q * 2 ^ suc k + s),
  bit_xor_step r s,
  field_step k p,
  field_step k q,
  field_step k (bit_xor p q),
  pow-suc 2 k,
  bit_xor_fields k p q (r / 2) (s / 2),
)

pub bit_xor_lt_pow : (k a b : ℕ) → a < 2 ^ k → b < 2 ^ k → bit_xor a b < 2 ^ k
bit_xor_lt_pow zero a b h g = ground (arith, zero-bit_xor 0)
bit_xor_lt_pow (suc k) a b h g =
    ground (arith, bit_xor_step a b, pow-suc 2 k, bit_xor_lt_pow k (a / 2) (b / 2))
