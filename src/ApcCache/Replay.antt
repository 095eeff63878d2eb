-- ===== src/ApcCache/Replay.antt =====
-- `prepForGet` and the loop over `getNextPacket` of APInterface/APCCache.cpp: what a restored
-- session sends again.
use apbridge.Prelude.{
  ℕ, zero, suc, ◌+◌, ◌-◌, ◌%◌, ◌^◌, ◌≤◌, ◌<◌, ◌≡◌, refl, List, [], ◌∷◌, Option, none, some, false,
  arith, if◌then◌else◌, ltb, leb, length, get_or,
}
use mathlib.Core.Option
use apbridge.ApcProto.{ApcError, apc_ok, apc_err_notfound}
use apbridge.ApcCache.{ApcCache, empty_pkt, prep_for_get, get_next_packet}
use apbridge.ApcCache.Ring.{Sent, no_packet, view, slot, Holds}

-- `while (getNextPacket(&pkt) != APC_ERR_NOTFOUND)`, with the results and packets it meets. The
-- option is empty when the fuel is too small.
unfoldable pub drain : ℕ → ApcCache → Option (List (ApcError × Sent))
drain zero c = none
drain (suc fuel) c =
    let (err, out, c') = get_next_packet c in
    let rest = drain fuel c' in
    elim out [ none ↦ some [] | some pkt ↦ Option.map (λ l. (err, view pkt) ∷ l) rest ]

-- The last `num` packets of a history, the oldest first.
pub recent : ℕ → List Sent → List (ApcError × Sent)
recent zero history = []
recent (suc num) history = (apc_ok, get_or history num no_packet) ∷ recent num history

-- Between `prepForGet` and the end, `num` packets are still to come.
get_next_packet_more :
    (c : ApcCache) (history : List Sent) (num : ℕ)
    → Holds c history
    → suc num ≤ c.num_packets
    → c.get_next_seq_num + suc num ≡ c.last_sent_seq_num
    → get_next_packet c ≡ (
      apc_ok,
      some (get_or c.outpkts (slot c.pos (length c.outpkts) num) empty_pkt),
      record c { get_next_seq_num = c.get_next_seq_num + 1 },
    )
unfolding get_next_packet
get_next_packet_more c history num v le e = rw (more, kept, at, next) refl
  where
    more : leb c.last_sent_seq_num c.get_next_seq_num ≡ false
    more = ground arith

    offset : c.last_sent_seq_num - c.get_next_seq_num ≡ suc num
    offset = omega arith

    kept : ltb c.num_packets (c.last_sent_seq_num - c.get_next_seq_num) ≡ false
    kept = ground arith

    at :
        ((if ltb c.pos (c.last_sent_seq_num - c.get_next_seq_num)
              then (c.pos + length c.outpkts) % 2 ^ 32
              else c.pos)
            + 2 ^ 32
            - (c.last_sent_seq_num - c.get_next_seq_num) % 2 ^ 32)
          % 2 ^ 32
        ≡ slot c.pos (length c.outpkts) num
    at = rw offset (ground (arith, v.inv.small, v.inv.pos_in, v.inv.num_in))

    next : (c.get_next_seq_num + 1) % 2 ^ 64 ≡ c.get_next_seq_num + 1
    next = omega (arith, v.inv.last_fits)

get_next_packet_end :
    (c : ApcCache)
    → c.get_next_seq_num ≡ c.last_sent_seq_num
    → get_next_packet c ≡ (apc_err_notfound, none, c)
unfolding get_next_packet
get_next_packet_end c e = ground arith

pub with_next-Holds :
    (c : ApcCache) (history : List Sent) (n : ℕ)
    → Holds c history
    → Holds (record c { get_next_seq_num = n }) history
with_next-Holds c history n v = record {
  inv = record {
    room = v.inv.room;
    small = v.inv.small;
    pos_in = v.inv.pos_in;
    num_in = v.inv.num_in;
    num_le = v.inv.num_le;
    last_fits = v.inv.last_fits;
  };
  counted = v.counted;
  kept = v.kept;
}

drain_from :
    (c : ApcCache) (history : List Sent) (num fuel : ℕ)
    → Holds c history
    → num ≤ c.num_packets
    → c.get_next_seq_num + num ≡ c.last_sent_seq_num
    → num < fuel
    → drain fuel c ≡ some (recent num history)
unfolding drain recent
drain_from c history num zero v le e lt = absurd (omega arith)
drain_from c history zero (suc fuel) v le e lt =
    rw (get_next_packet_end c (omega arith), drain) refl
drain_from c history (suc num) (suc fuel) v le e lt =
    rw
      (
        get_next_packet_more c history num v le e,
        drain,
        get_next_packet_more c history num v le e,
        drain_from (record c { get_next_seq_num = c.get_next_seq_num + 1 }) history num fuel
            (with_next-Holds c history _ v) (omega arith) (omega arith) (omega arith),
        v.kept num (omega (arith, v.inv.num_in)) (omega (arith, v.counted, v.inv.num_le)),
      )
      refl

-- After `prepForGet`, the loop gives exactly the last `num_packets` packets that were put in, the
-- oldest first, each with its number, its type and all its bytes and none with an error, and then
-- stops; one more round than there are packets is enough.
pub drain-prep_for_get :
    (c : ApcCache) (history : List Sent) (fuel : ℕ)
    → Holds c history
    → c.num_packets < fuel
    → drain fuel (prep_for_get c) ≡ some (recent c.num_packets history)
unfolding prep_for_get
drain-prep_for_get c history fuel v lt =
    drain_from (record c { get_next_seq_num = from }) history c.num_packets fuel
      (with_next-Holds c history from v) (omega arith)
      (omega (arith, v.inv.num_le, v.inv.last_fits)) lt
  where
    from : ℕ
    from = (c.last_sent_seq_num + 2 ^ 64 - c.num_packets) % 2 ^ 64
