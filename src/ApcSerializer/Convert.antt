-- ===== src/ApcSerializer/Convert.antt =====
-- The byte order conversion of APInterface/APCSerializer.cpp keeps a payload's length, and undoes
-- itself.
use mathlib.Core.List.{reverse, reverse_aux}
use apbridge.Prelude.{
  ℕ, ◌+◌, ◌≡◌, refl, List, [], ◌∷◌, ◌++◌, arith, length, length-append, length-take, length-drop,
  take, drop,
}
use apbridge.ApcSerializer.{
  ConvertType, host_to_net, net_to_host, swap_at, convert_field, convert_net_tx, convert_timemap,
  convert_connect, convert,
}

length-reverse_aux :
    (front back : List ℕ) → length (reverse_aux front back) ≡ length front + length back
length-reverse_aux [] back = omega arith
length-reverse_aux (b ∷ front) back = omega (arith, length-reverse_aux front (b ∷ back))

length-reverse : (front : List ℕ) → length (reverse front) ≡ length front
length-reverse front = omega (arith, length-reverse_aux front [])

pub length-swap_at : (n k : ℕ) (xs : List ℕ) → length (swap_at n k xs) ≡ length xs
unfolding swap_at
length-swap_at n k xs = omega (
  arith,
  length-append (take n xs) (reverse (take k (drop n xs)) ++ drop (n + k) xs),
  length-append (reverse (take k (drop n xs))) (drop (n + k) xs),
  length-reverse (take k (drop n xs)),
  length-take n xs,
  length-take k (drop n xs),
  length-drop n xs,
  length-drop (n + k) xs,
)

pub length-convert_field :
    (t : ConvertType) (n k : ℕ) (xs : List ℕ) → length (convert_field t n k xs) ≡ length xs
unfolding convert_field
length-convert_field host_to_net n k xs = length-swap_at n k xs
length-convert_field net_to_host n k xs = length-swap_at n k xs

pub length-convert_net_tx :
    (t : ConvertType) (xs : List ℕ) → length (convert_net_tx t xs) ≡ length xs
unfolding convert_net_tx
length-convert_net_tx t xs =
    rw (length-convert_field, length-convert_field, length-convert_field) refl

pub length-convert_timemap :
    (t : ConvertType) (xs : List ℕ) → length (convert_timemap t xs) ≡ length xs
unfolding convert_timemap
length-convert_timemap t xs =
    rw (length-convert_field, length-convert_field, length-convert_field, length-convert_field) refl

pub length-convert_connect :
    (t : ConvertType) (xs : List ℕ) → length (convert_connect t xs) ≡ length xs
unfolding convert_connect
length-convert_connect t xs =
    rw (length-convert_field, length-convert_field, length-convert_field) refl

-- No conversion changes the length of a payload.
pub length-convert :
    (t : ConvertType) (type : ℕ) (xs : List ℕ) → length (convert t type xs).1 ≡ length xs
unfolding convert
length-convert t type xs = ground (
  arith,
  length-convert_net_tx t xs,
  length-convert_field t 0 2 xs,
  length-convert_timemap t xs,
  length-convert_connect t xs,
)
