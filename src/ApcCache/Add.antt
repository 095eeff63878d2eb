-- ===== src/ApcCache/Add.antt =====
-- `addPacket` of APInterface/APCCache.cpp keeps the ring in step with the history.
use apbridge.Prelude.{
  ℕ, zero, suc, ◌+◌, ◌%◌, ◌^◌, ◌≤◌, ◌<◌, ◌≡◌, ◌≢◌, refl, ap, ◌∙◌, ◌⊎◌, inl, inr, List, ◌∷◌, ◌++◌,
  Option, some, arith, if◌then◌else◌, ltb, leb, length, length-set, get_or, set, get_or-set_self,
  get_or-set_ne, min, Bool-cases, false,
}
use apbridge.ApcProto.{ApcError, apc_ok, apc_err_outbufoverflow, apc_max_msg_size}
use apbridge.ApcCache.{CachePkt, ApcCache, empty_pkt, fill_pkt, add_packet}
use apbridge.ApcCache.Ring.{Sent, no_packet, view, slot, Holds, view-fill_pkt}

-- The position after the one that was written.
abbrev next_pos : ℕ → ℕ → ℕ
next_pos pos n = if leb n ((pos + 1) % 2 ^ 32) then 0 else (pos + 1) % 2 ^ 32

slot_first : (pos n : ℕ) → pos < n → n ≤ 2 ^ 31 → slot (next_pos pos n) n 0 ≡ pos
slot_first pos n h g = ground arith

slot_later :
    (pos n k : ℕ)
    → pos < n
    → n ≤ 2 ^ 31
    → suc k < n
    → slot (next_pos pos n) n (suc k) ≡ slot pos n k
slot_later pos n k h g lt = ground arith

slot-ne : (pos n k : ℕ) → pos < n → suc k < n → pos ≢ slot pos n k
slot-ne pos n k h lt = ground arith

-- Writing at the position and moving on puts one more packet in front.
write_kept :
    (pkts : List CachePkt) (pos : ℕ) (pkt : CachePkt) (history : List Sent) (k : ℕ)
    → pos < length pkts
    → length pkts ≤ 2 ^ 31
    → ((k : ℕ)
        → k < length pkts
        → k < length history
        → view (get_or pkts (slot pos (length pkts) k) empty_pkt) ≡ get_or history k no_packet)
    → k < length pkts
    → k < length (view pkt ∷ history)
    → view (get_or (set pkts pos pkt) (slot (next_pos pos (length pkts)) (length pkts) k) empty_pkt)
      ≡ get_or (view pkt ∷ history) k no_packet
write_kept pkts pos pkt history zero h g kept lt lt' =
    rw (slot_first pos (length pkts) h g, get_or-set_self pkts pos pkt empty_pkt h) refl
write_kept pkts pos pkt history (suc k) h g kept lt lt' =
    rw
      (
        slot_later pos (length pkts) k h g lt,
        get_or-set_ne pkts pos _ pkt empty_pkt (slot-ne pos (length pkts) k h lt),
      )
      (kept k (omega arith) (omega arith))

-- What a caller sees of a packet that fits.
pub record Added (c : ApcCache) (history : List Sent) (sent : Sent)
    (r : ApcError × Option ℕ × ApcCache) : Type 0 where
  pub holds : Holds r.2 (sent ∷ history)
  pub number : r.1 ≡ some sent.number
  pub grows : r.2.num_packets ≡ min (c.num_packets + 1) (length c.outpkts)
  pub full :
      ((r.0 ≡ apc_ok) × (c.num_packets < length c.outpkts))
      ⊎ ((r.0 ≡ apc_err_outbufoverflow) × (c.num_packets ≡ length c.outpkts))
  pub same_room : length r.2.outpkts ≡ length c.outpkts

abbrev filled : ApcCache → ℕ → List ℕ → List ℕ → CachePkt
filled c type p1 p2 =
    fill_pkt (get_or c.outpkts c.pos empty_pkt) type p1 p2 ((c.last_sent_seq_num + 1) % 2 ^ 64)

abbrev stored : ApcCache → ℕ → List ℕ → List ℕ → ApcCache
stored c type p1 p2 = record c {
  outpkts = set c.outpkts c.pos (filled c type p1 p2);
  last_sent_seq_num = (c.last_sent_seq_num + 1) % 2 ^ 64;
  pos = next_pos c.pos (length c.outpkts);
}

abbrev pub sent_of : ApcCache → ℕ → List ℕ → List ℕ → Sent
sent_of c type p1 p2 = record {
  number = (c.last_sent_seq_num + 1) % 2 ^ 32;
  type = type;
  bytes = p1 ++ p2;
}

module _ (c : ApcCache) (history : List Sent) (type : ℕ) (p1 p2 : List ℕ) (v : Holds c history)
    (fits : length p1 + length p2 ≤ apc_max_msg_size)
    (count : c.last_sent_seq_num + 1 < 2 ^ 64) where
  view-filled : view (filled c type p1 p2) ≡ sent_of c type p1 p2
  view-filled =
      view-fill_pkt (get_or c.outpkts c.pos empty_pkt) type p1 p2 _ (omega arith)
      ∙ ap (λ (n : ℕ). record { number = n; type = type; bytes = p1 ++ p2 }) (omega arith)

  stored-Holds :
      (num : ℕ)
      → num ≤ length c.outpkts
      → num ≤ c.last_sent_seq_num + 1
      → Holds (record (stored c type p1 p2) { num_packets = num }) (sent_of c type p1 p2 ∷ history)
  stored-Holds num le le' = record {
    inv = record {
      room = omega (arith, v.inv.room, same);
      small = omega (arith, v.inv.small, same);
      pos_in = ground (arith, v.inv.room, v.inv.pos_in, same);
      num_in = omega (arith, same);
      num_le = omega arith;
      last_fits = omega arith;
    };
    counted = omega (arith, v.counted);
    kept = λ k lt lt'.
        rw (same, ← view-filled)
          (write_kept c.outpkts c.pos (filled c type p1 p2) history k v.inv.pos_in v.inv.small
            v.kept (omega (arith, same)) lt');
  }
    where
      same : length (stored c type p1 p2).outpkts ≡ length c.outpkts
      same = length-set c.outpkts c.pos _

  -- A packet that fits takes the next number and is the newest of the history; it is refused in no
  -- case, and the result says whether an older packet was lost to it.
  pub add_packet-Holds : Added c history (sent_of c type p1 p2) (add_packet c type p1 p2)
  unfolding add_packet
  add_packet-Holds = elim (Bool-cases (leb (length c.outpkts) c.num_packets)) [
    | inl full ↦
        rw (small, full)
          (record {
            holds = stored-Holds c.num_packets v.inv.num_in (omega (arith, v.inv.num_le));
            number = number;
            grows = ground (arith, v.inv.num_in);
            full = inr (refl, ground (arith, v.inv.num_in));
            same_room = same;
          })
    | inr room ↦
        rw (small, room)
          (record {
            holds =
                stored-Holds ((c.num_packets + 1) % 2 ^ 32) (ground (arith, v.inv.small))
                  (ground (arith, v.inv.num_le));
            number = number;
            grows = ground (arith, v.inv.small);
            full = inl (refl, ground arith);
            same_room = same;
          })
  ]
    where
      small : ltb apc_max_msg_size ((length p1 + length p2) % 2 ^ 32) ≡ false
      small = ground arith

      number : some (filled c type p1 p2).seq_numb ≡ some ((c.last_sent_seq_num + 1) % 2 ^ 32)
      number = ap (λ (s : Sent). some s.number) view-filled

      same : length (stored c type p1 p2).outpkts ≡ length c.outpkts
      same = length-set c.outpkts c.pos _
