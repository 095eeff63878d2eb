-- ===== src/ApcCache/Confirm.antt =====
-- `confirmedSeqNum` of APInterface/APCCache.cpp: what the 32 bits of the peer's acknowledgement say.
use apbridge.Prelude.{
  ℕ, ◌+◌, ◌-◌, ◌%◌, ◌^◌, ◌≤◌, ◌<◌, ◌≡◌, refl, ap, ◌∙◌, Bool, true, false, List, arith,
  if◌then◌else◌, ltb, le→ltb-false, ltb-false→le, ltb→lt, length, min, Bool-cases, inl, inr,
}
use apbridge.ApcProto.{ApcError, apc_ok, apc_err_outbufoverflow, apc_err_protocol}
use apbridge.ApcCache.{ApcCache, widen, set_confirmed, confirmed_seq_num}
use apbridge.ApcCache.Ring.{Sent, Inv, Holds}

-- A number that was sent is recognised from its low half, as long as fewer than 2 ^ 32 packets
-- were sent after it.
pub widen_lem :
    (c : ApcCache) (t : ℕ)
    → c.last_sent_seq_num < 2 ^ 64
    → t ≤ c.last_sent_seq_num
    → c.last_sent_seq_num < t + 2 ^ 32
    → widen c (t % 2 ^ 32) ≡ t
unfolding widen
widen_lem c t h le lt = ground arith

-- The ring does not change when the count of packets to keep does.
pub with_num-Holds :
    (c : ApcCache) (history : List Sent) (num : ℕ)
    → Holds c history
    → num ≤ length c.outpkts
    → num ≤ c.last_sent_seq_num
    → Holds (record c { num_packets = num }) history
with_num-Holds c history num v le le' = record {
  inv = record {
    room = v.inv.room;
    small = v.inv.small;
    pos_in = v.inv.pos_in;
    num_in = le;
    num_le = le';
    last_fits = v.inv.last_fits;
  };
  counted = v.counted;
  kept = v.kept;
}

-- The number of packets that stay, when `unconfirmed` were sent after the confirmed one.
abbrev pub still_kept : ApcCache → ℕ → Bool → ℕ
still_kept c unconfirmed is_init =
    if is_init then min unconfirmed (length c.outpkts) else min unconfirmed c.num_packets

pub record Confirmed (c : ApcCache) (history : List Sent) (t : ℕ) (is_init : Bool)
    (r : ApcError × ApcCache) : Type 0 where
  pub holds : Holds r.1 history
  pub keeps : r.1.num_packets ≡ still_kept c (c.last_sent_seq_num - t) is_init
  pub result : r.0 ≡ (
      if ltb (length c.outpkts) (c.last_sent_seq_num - t) then apc_err_outbufoverflow else apc_ok)

set_confirmed-num :
    (c : ApcCache) (t : ℕ) (is_init : Bool)
    → c.last_sent_seq_num - t ≤ length c.outpkts
    → Inv c
    → set_confirmed c t is_init
      ≡ (record c { num_packets = still_kept c (c.last_sent_seq_num - t) is_init })
unfolding set_confirmed
set_confirmed-num c t true le v = ground (arith, v.small)
set_confirmed-num c t false le v = ground (arith, v.small)

set_confirmed-Holds :
    (c : ApcCache) (history : List Sent) (t : ℕ) (is_init : Bool)
    → c.last_sent_seq_num - t ≤ length c.outpkts
    → Holds c history
    → Holds (set_confirmed c t is_init) history
set_confirmed-Holds c history t is_init le v = rw (set_confirmed-num c t is_init le v.inv) (
    with_num-Holds c history (still_kept c (c.last_sent_seq_num - t) is_init) v
      (ground (arith, v.inv.num_in)) (ground (arith, v.inv.num_le)))

num-set_confirmed :
    (c : ApcCache) (t : ℕ) (is_init : Bool)
    → c.last_sent_seq_num - t ≤ length c.outpkts
    → Inv c
    → (set_confirmed c t is_init).num_packets ≡ still_kept c (c.last_sent_seq_num - t) is_init
num-set_confirmed c t is_init le v = rw (set_confirmed-num c t is_init le v) refl

-- Where more was sent after the confirmed packet than the ring holds, all of the ring is kept.
still_kept_all :
    (c : ApcCache) (is_init : Bool) (u : ℕ)
    → Inv c
    → length c.outpkts < u
    → still_kept c (length c.outpkts) is_init ≡ still_kept c u is_init
still_kept_all c true u v lt = omega arith
still_kept_all c false u v lt = omega (arith, v.num_in)

-- An acknowledgement of the packet numbered `t`, given by its low 32 bits, leaves the ring's
-- contents alone and keeps the packets sent after `t`: all of them that the ring holds when the
-- session starts, and otherwise no more than were kept before. More unconfirmed packets than the
-- ring has room for are reported as an overflow. This holds of every `t` that was sent fewer than
-- 2 ^ 32 packets ago.
pub confirmed_seq_num-Confirmed :
    (c : ApcCache) (history : List Sent) (t : ℕ) (is_init : Bool)
    → Holds c history
    → t ≤ c.last_sent_seq_num
    → c.last_sent_seq_num < t + 2 ^ 32
    → Confirmed c history t is_init (confirmed_seq_num c (t % 2 ^ 32) is_init)
unfolding confirmed_seq_num
confirmed_seq_num-Confirmed c history t is_init v le lt =
    elim (Bool-cases (ltb (length c.outpkts) (c.last_sent_seq_num - t))) [
      | inl lost ↦
          rw (widen_lem c t v.inv.last_fits le lt, le→ltb-false c.last_sent_seq_num t le, lost)
            (record {
              holds =
                  set_confirmed-Holds c history (c.last_sent_seq_num - length c.outpkts) is_init
                    (omega arith) v;
              keeps =
                  num-set_confirmed c (c.last_sent_seq_num - length c.outpkts) is_init (omega arith)
                    v.inv
                  ∙ ap (λ (m : ℕ). still_kept c m is_init) (back (ltb→lt _ _ lost))
                  ∙ still_kept_all c is_init (c.last_sent_seq_num - t) v.inv (ltb→lt _ _ lost);
              result = rw lost refl;
            })
      | inr kept ↦
          rw (widen_lem c t v.inv.last_fits le lt, le→ltb-false c.last_sent_seq_num t le, kept)
            (record {
              holds = set_confirmed-Holds c history t is_init (ltb-false→le _ _ kept) v;
              keeps = num-set_confirmed c t is_init (ltb-false→le _ _ kept) v.inv;
              result = rw kept refl;
            })
    ]
  where
    back :
        length c.outpkts < c.last_sent_seq_num - t
        → c.last_sent_seq_num - (c.last_sent_seq_num - length c.outpkts) ≡ length c.outpkts
    back lost = omega arith

-- A number that was never sent is refused, and the cache stays as it is: while fewer than 2 ^ 32
-- packets have been sent there is no earlier round that it could belong to.
pub confirmed_seq_num_unsent :
    (c : ApcCache) (a : ℕ) (is_init : Bool)
    → a < 2 ^ 32
    → c.last_sent_seq_num < a
    → confirmed_seq_num c a is_init ≡ (apc_err_protocol, c)
unfolding confirmed_seq_num widen
confirmed_seq_num_unsent c a is_init fits lt = ground arith
