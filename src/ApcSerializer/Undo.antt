-- ===== src/ApcSerializer/Undo.antt =====
-- The byte order conversion of APInterface/APCSerializer.cpp undoes itself.
use apbridge.Prelude.{
  ℕ, zero, suc, ◌≤◌, ◌≡◌, refl, ap, subst, List, [], ◌∷◌, ◌++◌, arith, if◌then◌else◌, ltb,
  ltb-false→le, ◌==◌, length, get_or, drop, Bool-cases, inl, inr,
}
use apbridge.ApcProto.{
  ApcError, apc_ok, apc_err_size, apc_connect, apc_net_tx, apc_net_txdone, apc_time_map,
  apc_msg_net_tx_size, apc_msg_net_txdone_size, apc_msg_timemap_size, apc_msg_connect_size,
}
use apbridge.ApcSerializer.{
  host_to_net, net_to_host, swap_at, convert_field, convert_net_tx, convert_timemap,
  convert_connect, convert,
}
use apbridge.ApcSerializer.Convert.{
  length-convert_field, length-convert_net_tx, length-convert_timemap, length-convert_connect,
}

-- The first `n` bytes, one by one.
abbrev bytes_of : ℕ → List ℕ → List ℕ
bytes_of zero xs = []
bytes_of (suc n) xs = get_or xs 0 0 ∷ bytes_of n (drop 1 xs)

bytes_of-lem : (n : ℕ) (xs : List ℕ) → n ≤ length xs → bytes_of n xs ++ drop n xs ≡ xs
bytes_of-lem zero xs h = refl
bytes_of-lem (suc n) [] h = absurd (omega arith)
bytes_of-lem (suc n) (x ∷ xs) h = ap (λ (l : List ℕ). x ∷ l) (bytes_of-lem n xs (omega arith))

net_tx-back :
    (xs : List ℕ)
    → apc_msg_net_tx_size ≤ length xs
    → convert_net_tx net_to_host (convert_net_tx host_to_net xs) ≡ xs
unfolding convert_net_tx convert_field swap_at
net_tx-back xs h =
    subst (λ (l : List ℕ). convert_net_tx net_to_host (convert_net_tx host_to_net l) ≡ l)
      (bytes_of-lem 12 xs h) refl

txdone-back :
    (xs : List ℕ)
    → apc_msg_net_txdone_size ≤ length xs
    → convert_field net_to_host 0 2 (convert_field host_to_net 0 2 xs) ≡ xs
unfolding convert_field swap_at
txdone-back xs h =
    subst (λ (l : List ℕ). convert_field net_to_host 0 2 (convert_field host_to_net 0 2 l) ≡ l)
      (bytes_of-lem 2 xs (omega arith)) refl

timemap-back :
    (xs : List ℕ)
    → apc_msg_timemap_size ≤ length xs
    → convert_timemap net_to_host (convert_timemap host_to_net xs) ≡ xs
unfolding convert_timemap convert_field swap_at
timemap-back xs h =
    subst (λ (l : List ℕ). convert_timemap net_to_host (convert_timemap host_to_net l) ≡ l)
      (bytes_of-lem 22 xs (omega arith)) refl

connect-back :
    (xs : List ℕ)
    → apc_msg_connect_size ≤ length xs
    → convert_connect net_to_host (convert_connect host_to_net xs) ≡ xs
unfolding convert_connect convert_field swap_at
connect-back xs h =
    subst (λ (l : List ℕ). convert_connect net_to_host (convert_connect host_to_net l) ≡ l)
      (bytes_of-lem 46 xs (omega arith)) refl

abbrev guarded : ℕ → (List ℕ → List ℕ) → List ℕ → ApcError × List ℕ
guarded n f xs = if ltb (length xs) n then (apc_err_size, xs) else (apc_ok, f xs)

-- One case of the conversion: too short a payload is refused.
sized :
    (n : ℕ) (f g : List ℕ → List ℕ) (xs : List ℕ)
    → length (f xs) ≡ length xs
    → (n ≤ length xs → g (f xs) ≡ xs)
    → (guarded n f xs).0 ≡ apc_ok
    → guarded n g (guarded n f xs).1 ≡ (apc_ok, xs)
sized n f g xs keeps undo e = elim (Bool-cases (ltb (length xs) n)) [
  | inl short ↦ absurd (no_error (rw short at e))
  | inr long ↦ rw (long, keeps, long, undo (ltb-false→le _ _ long)) refl
]
  where
    no_error : apc_err_size ≡ apc_ok → ⊥
    no_error e = cc

pub convert_back :
    (type : ℕ) (xs : List ℕ)
    → (convert host_to_net type xs).0 ≡ apc_ok
    → convert net_to_host type (convert host_to_net type xs).1 ≡ (apc_ok, xs)
unfolding convert
convert_back type xs e = elim (Bool-cases (type == apc_net_tx)) [
  | inl tx ↦ rw tx (
      sized apc_msg_net_tx_size (convert_net_tx host_to_net) (convert_net_tx net_to_host) xs
        (length-convert_net_tx host_to_net xs) (net_tx-back xs) (rw tx at e))
  | inr a ↦ elim (Bool-cases (type == apc_net_txdone)) [
    | inl done ↦
        rw (a, done)
          (sized apc_msg_net_txdone_size (convert_field host_to_net 0 2)
            (convert_field net_to_host 0 2) xs (length-convert_field host_to_net 0 2 xs)
            (txdone-back xs) (rw (a, done) at e))
    | inr b ↦ elim (Bool-cases (type == apc_time_map)) [
      | inl map ↦
          rw (a, b, map)
            (sized apc_msg_timemap_size (convert_timemap host_to_net) (convert_timemap net_to_host)
              xs (length-convert_timemap host_to_net xs) (timemap-back xs) (rw (a, b, map) at e))
      | inr c ↦ elim (Bool-cases (type == apc_connect)) [
        | inl conn ↦
            rw (a, b, c, conn)
              (sized apc_msg_connect_size (convert_connect host_to_net)
                (convert_connect net_to_host) xs (length-convert_connect host_to_net xs)
                (connect-back xs) (rw (a, b, c, conn) at e))
        | inr d ↦ rw (a, b, c, d) refl
      ]
    ]
  ]
]
