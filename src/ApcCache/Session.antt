-- ===== src/ApcCache/Session.antt =====
-- The calls of a `CAPCCache` of APInterface/APCCache.cpp in any order, from a cleared cache on.
use apbridge.Prelude.{
  ℕ, ◌+◌, ◌-◌, ◌%◌, ◌^◌, ◌≤◌, ◌<◌, ◌≡◌, Bool, true, List, [], ◌∷◌, arith, ltb, leb, length,
  Bool-cases, inl, inr,
}
use apbridge.ApcProto.{apc_max_msg_size}
use apbridge.ApcCache.{
  ApcCache, clear, add_packet, confirmed_seq_num, prep_for_get, read_at, get_next_packet,
}
use apbridge.ApcCache.Ring.{Sent, Holds, clear-Holds}
use apbridge.ApcCache.Add.{sent_of, add_packet-Holds}
use apbridge.ApcCache.Confirm.{confirmed_seq_num-Confirmed}
use apbridge.ApcCache.Replay.{with_next-Holds}

-- The caches that calls can lead to, each with the packets that were put into it, the last one
-- first. Fewer than 2 ^ 64 packets are put in, and an acknowledgement is of one of the last 2 ^ 32.
pub data Reach : ApcCache → List Sent → Type 0 where
  cleared : (c : ApcCache) → 0 < length c.outpkts → length c.outpkts ≤ 2 ^ 31 → Reach (clear c) []
  added :
      (c : ApcCache) (history : List Sent) (type : ℕ) (p1 p2 : List ℕ)
      → Reach c history
      → length p1 + length p2 ≤ apc_max_msg_size
      → c.last_sent_seq_num + 1 < 2 ^ 64
      → Reach (add_packet c type p1 p2).2 (sent_of c type p1 p2 ∷ history)
  refused :
      (c : ApcCache) (history : List Sent) (type : ℕ) (p1 p2 : List ℕ)
      → Reach c history
      → apc_max_msg_size < length p1 + length p2
      → length p1 + length p2 < 2 ^ 32
      → Reach (add_packet c type p1 p2).2 history
  confirmed :
      (c : ApcCache) (history : List Sent) (t : ℕ) (is_init : Bool)
      → Reach c history
      → t ≤ c.last_sent_seq_num
      → c.last_sent_seq_num < t + 2 ^ 32
      → Reach (confirmed_seq_num c (t % 2 ^ 32) is_init).1 history
  readied : (c : ApcCache) (history : List Sent) → Reach c history → Reach (prep_for_get c) history
  gotten :
      (c : ApcCache) (history : List Sent) → Reach c history → Reach (get_next_packet c).2 history

refused-Holds :
    (c : ApcCache) (history : List Sent) (type : ℕ) (p1 p2 : List ℕ)
    → Holds c history
    → apc_max_msg_size < length p1 + length p2
    → length p1 + length p2 < 2 ^ 32
    → Holds (add_packet c type p1 p2).2 history
unfolding add_packet
refused-Holds c history type p1 p2 v large fits = rw too_large v
  where
    too_large : ltb apc_max_msg_size ((length p1 + length p2) % 2 ^ 32) ≡ true
    too_large = ground (arith, large, fits)

gotten-Holds :
    (c : ApcCache) (history : List Sent) → Holds c history → Holds (get_next_packet c).2 history
unfolding get_next_packet read_at
gotten-Holds c history v = elim (Bool-cases (leb c.last_sent_seq_num c.get_next_seq_num)) [
  | inl done ↦ rw done v
  | inr more ↦ elim (Bool-cases (ltb c.num_packets (c.last_sent_seq_num - c.get_next_seq_num))) [
    | inl lost ↦ rw (more, lost) (with_next-Holds c history _ v)
    | inr kept ↦ rw (more, kept) (with_next-Holds c history _ v)
  ]
]

prepared-Holds :
    (c : ApcCache) (history : List Sent) → Holds c history → Holds (prep_for_get c) history
unfolding prep_for_get
prepared-Holds c history v = with_next-Holds c history _ v

pub Reach-Holds : (c : ApcCache) (history : List Sent) → Reach c history → Holds c history
Reach-Holds _ _ (cleared c room small) = clear-Holds c room small
Reach-Holds _ _ (added c history type p1 p2 r fits count) =
    (add_packet-Holds c history type p1 p2 (Reach-Holds c history r) fits count).holds
Reach-Holds _ _ (refused c history type p1 p2 r large fits) =
    refused-Holds c history type p1 p2 (Reach-Holds c history r) large fits
Reach-Holds _ _ (confirmed c history t is_init r le lt) =
    (confirmed_seq_num-Confirmed c history t is_init (Reach-Holds c history r) le lt).holds
Reach-Holds _ _ (readied c history r) = prepared-Holds c history (Reach-Holds c history r)
Reach-Holds _ _ (gotten c history r) = gotten-Holds c history (Reach-Holds c history r)
