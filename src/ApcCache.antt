-- ===== src/ApcCache.antt =====
-- APInterface/APCCache.h and APCCache.cpp: the ring of packets that are sent and not yet confirmed.
-- Sequence numbers are 64 bits wide inside and 32 bits on the wire. A method returns the state
-- beside its result; the mutex makes each call one step.
pub mod Ring
pub mod Add
pub mod Confirm
pub mod Replay
pub mod Session
pub mod Examples
use apbridge.Prelude.{
  ℕ, suc, ◌+◌, ◌-◌, ◌*◌, ◌/◌, ◌%◌, ◌^◌, Bool, ◌||◌, List, [], ◌++◌, Option, none, some,
  if◌then◌else◌, ltb, leb, length, get_or, set, take, drop,
}
use apbridge.Prelude.Memory.{memcpy}
use apbridge.ApcProto.{
  ApcError, apc_ok, apc_err_size, apc_err_outbufoverflow, apc_err_protocol, apc_err_notfound,
  apc_max_msg_size,
}

-- `apc_cache_pkt_s`; the payload is the whole array, of which the first `size` bytes count.
pub record CachePkt : Type 0 where
  pub seq_numb : ℕ
  pub msg_type : ℕ
  pub size : ℕ
  pub payload : List ℕ

-- `CAPCCache`
pub record ApcCache : Type 0 where
  pub outpkts : List CachePkt
  pub last_sent_seq_num : ℕ
  pub num_packets : ℕ
  pub pos : ℕ
  pub get_next_seq_num : ℕ

-- An element of the vector before it is written.
abbrev pub empty_pkt : CachePkt
empty_pkt = record { seq_numb = 0; msg_type = 0; size = 0; payload = [] }

unfoldable pub clear : ApcCache → ApcCache
clear c = record c { last_sent_seq_num = 0; num_packets = 0; pos = 0; get_next_seq_num = 0 }

-- The packet as `addPacket` leaves it in its slot. The copies are skipped at size 0.
pub fill_pkt : CachePkt → ℕ → List ℕ → List ℕ → ℕ → CachePkt
fill_pkt pkt type p1 p2 seq_num =
    let s1 = length p1 in
    let s2 = length p2 in
    let payload1 = if ltb 0 s1 then memcpy pkt.payload 0 p1 else pkt.payload in
    record {
      seq_numb = seq_num % 2 ^ 32;
      msg_type = type;
      size = (s1 + s2) % 2 ^ 32;
      payload = if ltb 0 s2 then memcpy payload1 s1 p2 else payload1;
    }

-- `addPacket`. The option is what goes through `pSeqNum`.
pub add_packet : ApcCache → ℕ → List ℕ → List ℕ → ApcError × Option ℕ × ApcCache
add_packet c type p1 p2 =
    if ltb apc_max_msg_size ((length p1 + length p2) % 2 ^ 32)
    then (apc_err_size, none, c)
    else (let last = (c.last_sent_seq_num + 1) % 2 ^ 64 in
        let pkt = fill_pkt (get_or c.outpkts c.pos empty_pkt) type p1 p2 last in
        let next = (c.pos + 1) % 2 ^ 32 in
        let c' = record c {
          outpkts = set c.outpkts c.pos pkt;
          last_sent_seq_num = last;
          pos = if leb (length c.outpkts) next then 0 else next;
        } in
        if leb (length c.outpkts) c.num_packets
        then (apc_err_outbufoverflow, some pkt.seq_numb, c')
        else (apc_ok, some pkt.seq_numb, record c' { num_packets = (c.num_packets + 1) % 2 ^ 32 }))

-- The 64-bit number that `confirmedSeqNum` makes of a 32-bit one: the high half is that of
-- `m_lastSentSeqNum` (`|` of disjoint halves), or one less.
pub widen : ApcCache → ℕ → ℕ
widen c confirmed =
    let joined = confirmed + (c.last_sent_seq_num / 2 ^ 32) * 2 ^ 32 in
    if ltb (c.last_sent_seq_num % 2 ^ 32) confirmed
    then (joined + 2 ^ 64 - 2 ^ 32) % 2 ^ 64
    else joined

set_confirmed : ApcCache → ℕ → Bool → ApcCache
set_confirmed c confirmed is_init =
    let num_pkt = (c.last_sent_seq_num - confirmed) % 2 ^ 32 in
    if ltb num_pkt c.num_packets || is_init then record c { num_packets = num_pkt } else c

-- `confirmedSeqNum`
pub confirmed_seq_num : ApcCache → ℕ → Bool → ApcError × ApcCache
unfolding set_confirmed
confirmed_seq_num c a_confirmed is_init =
    let confirmed = widen c a_confirmed in
    if ltb c.last_sent_seq_num confirmed
    then (apc_err_protocol, c)
    else if ltb (length c.outpkts) (c.last_sent_seq_num - confirmed)
    then (apc_err_outbufoverflow, set_confirmed c (c.last_sent_seq_num - length c.outpkts) is_init)
    else (apc_ok, set_confirmed c confirmed is_init)

-- `prepForGet`
unfoldable pub prep_for_get : ApcCache → ApcCache
prep_for_get c = record c {
  get_next_seq_num = (c.last_sent_seq_num + 2 ^ 64 - c.num_packets) % 2 ^ 64;
}

-- The slot that `getNextPacket` reads, and the state after it.
pub read_at : ApcCache → ℕ → ℕ → CachePkt × ApcCache
read_at c offset next =
    let wrapped = if ltb c.pos offset then (c.pos + length c.outpkts) % 2 ^ 32 else c.pos in
    let at = (wrapped + 2 ^ 32 - offset % 2 ^ 32) % 2 ^ 32 in
    (get_or c.outpkts at empty_pkt, record c { get_next_seq_num = (next + 1) % 2 ^ 64 })

-- `getNextPacket`. The option is what goes through `pPkt`.
pub get_next_packet : ApcCache → ApcError × Option CachePkt × ApcCache
unfolding read_at
get_next_packet c =
    if leb c.last_sent_seq_num c.get_next_seq_num
    then (apc_err_notfound, none, c)
    else (let offset = c.last_sent_seq_num - c.get_next_seq_num in
        if ltb c.num_packets offset
        then (let (pkt, c') =
              read_at c c.num_packets ((c.last_sent_seq_num + 2 ^ 64 - c.num_packets) % 2 ^ 64) in
            (apc_err_outbufoverflow, some pkt, c'))
        else (let (pkt, c') = read_at c offset c.get_next_seq_num in (apc_ok, some pkt, c')))
