-- ===== src/ApcCache/Ring.antt =====
-- The ring of APInterface/APCCache.cpp against the history of the packets put into it.
use apbridge.Prelude.{
  ℕ, ◌+◌, ◌-◌, ◌%◌, ◌^◌, ◌≤◌, ◌<◌, ◌≡◌, refl, ap, List, [], ◌∷◌, ◌++◌, append-nil, arith,
  if◌then◌else◌, ltb, lt→ltb, length, get_or, take, drop, take-length_append,
}
use apbridge.Prelude.Memory.{memcpy, memcpy-zero, take-memcpy}
use apbridge.ApcCache.{CachePkt, ApcCache, empty_pkt, clear, fill_pkt}

-- What a packet is to the peer: its number, its type and its bytes.
pub record Sent : Type 0 where
  pub number : ℕ
  pub type : ℕ
  pub bytes : List ℕ

abbrev pub no_packet : Sent
no_packet = record { number = 0; type = 0; bytes = [] }

abbrev pub view : CachePkt → Sent
view p = record { number = p.seq_numb; type = p.msg_type; bytes = take p.size p.payload }

-- The slot of the packet that was put in `k` packets before the last one.
abbrev pub slot : ℕ → ℕ → ℕ → ℕ
slot pos n k = if ltb k pos then pos - 1 - k else pos + n - 1 - k

-- The bounds that every method keeps. The size of the cache is a `uint32_t`, and the sum of a
-- position and the size must not wrap.
pub record Inv (c : ApcCache) : Type 0 where
  pub room : 0 < length c.outpkts
  pub small : length c.outpkts ≤ 2 ^ 31
  pub pos_in : c.pos < length c.outpkts
  pub num_in : c.num_packets ≤ length c.outpkts
  pub num_le : c.num_packets ≤ c.last_sent_seq_num
  pub last_fits : c.last_sent_seq_num < 2 ^ 64

-- The cache after the packets of `history`, the last one first.
pub record Holds (c : ApcCache) (history : List Sent) : Type 0 where
  pub inv : Inv c
  pub counted : c.last_sent_seq_num ≡ length history
  pub kept :
      (k : ℕ)
      → k < length c.outpkts
      → k < length history
      → view (get_or c.outpkts (slot c.pos (length c.outpkts) k) empty_pkt)
        ≡ get_or history k no_packet

-- A cache that was cleared holds nothing, whatever its slots contain.
pub clear-Holds :
    (c : ApcCache) → 0 < length c.outpkts → length c.outpkts ≤ 2 ^ 31 → Holds (clear c) []
unfolding clear
clear-Holds c h k = record {
  inv = record {
    room = h;
    small = k;
    pos_in = h;
    num_in = omega arith;
    num_le = omega arith;
    last_fits = omega arith;
  };
  counted = refl;
  kept = λ k _ lt. absurd (omega arith);
}

abbrev filled : List ℕ → List ℕ → List ℕ → List ℕ
filled payload p1 p2 =
    let payload1 = if ltb 0 (length p1) then memcpy payload 0 p1 else payload in
    if ltb 0 (length p2) then memcpy payload1 (length p1) p2 else payload1

take-filled :
    (payload p1 p2 : List ℕ) (n : ℕ)
    → n ≡ length p1 + length p2
    → take n (filled payload p1 p2) ≡ p1 ++ p2
take-filled payload [] [] n e = rw e refl
take-filled payload (a ∷ p1) [] n e =
    rw (one, lt→ltb 0 (length (a ∷ p1)) (omega arith), memcpy-zero, append-nil)
      (take-length_append (a ∷ p1) (drop (0 + length (a ∷ p1)) payload))
  where
    one : n ≡ length (a ∷ p1)
    one = omega (arith, e)
take-filled payload [] (b ∷ p2) n e =
    rw (one, lt→ltb 0 (length (b ∷ p2)) (omega arith), memcpy-zero)
      (take-length_append (b ∷ p2) (drop (0 + length (b ∷ p2)) payload))
  where
    one : n ≡ length (b ∷ p2)
    one = omega (arith, e)
take-filled payload (a ∷ p1) (b ∷ p2) n e =
    rw
      (
        e,
        lt→ltb 0 (length (a ∷ p1)) (omega arith),
        lt→ltb 0 (length (b ∷ p2)) (omega arith),
        memcpy-zero payload (a ∷ p1),
      )
      (take-memcpy (drop (0 + length (a ∷ p1)) payload) (a ∷ p1) (b ∷ p2))

-- The bytes of the filled slot are the two parts, whatever stood there.
pub view-fill_pkt :
    (pkt : CachePkt) (type : ℕ) (p1 p2 : List ℕ) (last : ℕ)
    → length p1 + length p2 < 2 ^ 32
    → view (fill_pkt pkt type p1 p2 last)
      ≡ (record { number = last % 2 ^ 32; type = type; bytes = p1 ++ p2 })
unfolding fill_pkt
view-fill_pkt pkt type p1 p2 last h =
    ap (λ (l : List ℕ). record { number = last % 2 ^ 32; type = type; bytes = l })
      (take-filled pkt.payload p1 p2 ((length p1 + length p2) % 2 ^ 32) (omega arith))
