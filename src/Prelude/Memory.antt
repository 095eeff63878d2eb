-- ===== src/Prelude/Memory.antt =====
-- `memcpy` into an array, as the program calls it, on arrays as lists.
use apbridge.Prelude.Lists.{
  length, length-append, length-take, length-drop, take, drop, take-length_append,
}
use Prim.Native.Nat.{ℕ, ◌+◌, ◌≤◌}
use mathlib.Core.Path.{◌≡◌, refl, sym, ap₂, ◌∙◌}
use mathlib.Core.List.{List, ◌++◌, append_assoc}
use native.Mathlib.Omega.{arith}

-- `memcpy(dst + at, src, length src)`
unfoldable pub memcpy : List ℕ → ℕ → List ℕ → List ℕ
memcpy dst at src = take at dst ++ (src ++ drop (at + length src) dst)

pub take-memcpy :
    (dst p1 p2 : List ℕ)
    → take (length p1 + length p2) (memcpy (p1 ++ dst) (length p1) p2) ≡ p1 ++ p2
unfolding memcpy
take-memcpy dst p1 p2 =
    rw
      (
        take-length_append p1 dst,
        ← append_assoc p1 p2 (drop (length p1 + length p2) (p1 ++ dst)),
        ← length-append p1 p2,
      )
      (take-length_append (p1 ++ p2) (drop (length (p1 ++ p2)) (p1 ++ dst)))

pub memcpy-zero : (dst p : List ℕ) → memcpy dst 0 p ≡ p ++ drop (0 + length p) dst
unfolding memcpy
memcpy-zero dst p = refl

pub length-memcpy :
    (dst : List ℕ) (at : ℕ) (src : List ℕ)
    → at + length src ≤ length dst
    → length (memcpy dst at src) ≡ length dst
unfolding memcpy
length-memcpy dst at src h = omega (
  arith,
  length-append (take at dst) (src ++ drop (at + length src) dst),
  length-append src (drop (at + length src) dst),
  length-take at dst,
  length-drop (at + length src) dst,
)

pub take-memcpy_end :
    (dst : List ℕ) (at : ℕ) (src : List ℕ)
    → at ≤ length dst
    → take (at + length src) (memcpy dst at src) ≡ take at dst ++ src
unfolding memcpy
take-memcpy_end dst at src h =
    ap₂ take count (sym (append_assoc (take at dst) src (drop (at + length src) dst)))
    ∙ take-length_append (take at dst ++ src) (drop (at + length src) dst)
  where
    count : at + length src ≡ length (take at dst ++ src)
    count = omega (arith, length-append (take at dst) src, length-take at dst)
