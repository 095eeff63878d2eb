-- ===== src/ApCoupler/Header.antt =====
-- The header that APInterface/APCoupler.cpp puts before a packet of the manager.
use apbridge.Prelude.{
  ℕ, ◌+◌, ◌*◌, ◌/◌, ◌%◌, ◌^◌, ◌<◌, ◌≡◌, refl, Bool, true, false, List, ◌++◌, none, arith,
  if◌then◌else◌, ◌==◌, get_or, drop,
}
use apbridge.ApmSerializer.{be16, be32}
use apbridge.ApcClient.State.{SendHdr, Priority, apintf_low, apintf_med, apintf_hi, apintf_cmd}
use apbridge.ApCoupler.State.{insert_msg, World, Coupler, emit}
use apbridge.ApCoupler.Send.{
  ApSendCtrl, ctrl_bytes, cmd_ap_send, send_ap_send, insert, priority_bits,
}
use apbridge.ApCoupler.Inputs.{data_rx}

-- The reading of `dn_api_loc_apsend_ctrl_t`, field by field.
unfoldable pub read_priority : ℕ → Priority
read_priority b =
    if b % 4 == 0
    then apintf_low
    else if b % 4 == 1
    then apintf_med
    else if b % 4 == 2
    then apintf_hi
    else apintf_cmd

unfoldable pub read_ctrl : List ℕ → ApSendCtrl
read_ctrl bytes = record {
  priority = read_priority (get_or bytes 0 0);
  link_ctrl = get_or bytes 0 0 / 4 % 2 == 1;
  packet_id = be16 bytes 1;
  frame_id = get_or bytes 3 0;
  timeslot = be32 bytes 4;
  channel = get_or bytes 8 0;
  dest = be16 bytes 9;
}

-- The fields are within the width that they have in the source.
pub record Wide (h : SendHdr) : Type 0 where
  pub tx_done_id : h.tx_done_id < 2 ^ 16
  pub fr_id : h.fr_id < 2 ^ 8
  pub slot : h.slot < 2 ^ 32
  pub offset : h.offset < 2 ^ 8
  pub dst : h.dst < 2 ^ 16

-- The header that stands for the manager's.
abbrev pub ctrl_of : SendHdr → ApSendCtrl
ctrl_of h = record {
  priority = h.priority;
  link_ctrl = h.is_link_info_specified;
  packet_id = h.tx_done_id;
  frame_id = h.fr_id;
  timeslot = h.slot;
  channel = h.offset;
  dest = h.dst;
}

flags : Priority → Bool → ℕ
flags p link = priority_bits p + (if link then 4 else 0)

priority_back : (p : Priority) (link : Bool) → read_priority (flags p link) ≡ p
unfolding read_priority flags
priority_back apintf_low true = refl
priority_back apintf_low false = refl
priority_back apintf_med true = refl
priority_back apintf_med false = refl
priority_back apintf_hi true = refl
priority_back apintf_hi false = refl
priority_back apintf_cmd true = refl
priority_back apintf_cmd false = refl

link_back : (p : Priority) (link : Bool) → (flags p link / 4 % 2 == 1) ≡ link
unfolding flags
link_back apintf_low true = refl
link_back apintf_low false = refl
link_back apintf_med true = refl
link_back apintf_med false = refl
link_back apintf_hi true = refl
link_back apintf_hi false = refl
link_back apintf_cmd true = refl
link_back apintf_cmd false = refl

two_back : (n : ℕ) → n < 2 ^ 16 → n / 2 ^ 8 % 2 ^ 8 * 2 ^ 8 + n % 2 ^ 8 ≡ n
two_back n small = omega (arith, small)

byte_back : (n : ℕ) → n < 2 ^ 8 → n % 2 ^ 8 ≡ n
byte_back n small = omega (arith, small)

four_back :
    (n : ℕ)
    → n < 2 ^ 32
    → (n / 2 ^ 16 / 2 ^ 8 % 2 ^ 8 * 2 ^ 8 + n / 2 ^ 16 % 2 ^ 8) * 2 ^ 16
        + (n / 2 ^ 8 % 2 ^ 8 * 2 ^ 8 + n % 2 ^ 8)
      ≡ n
four_back n small = omega (arith, small)

read-ctrl_bytes :
    (h : SendHdr) (rest : List ℕ) → Wide h → read_ctrl (ctrl_bytes (ctrl_of h) ++ rest) ≡ ctrl_of h
unfolding read_ctrl ctrl_bytes flags
read-ctrl_bytes h rest v =
    rw
      (
        priority_back h.priority h.is_link_info_specified,
        link_back h.priority h.is_link_info_specified,
        two_back h.tx_done_id v.tx_done_id,
        byte_back h.fr_id v.fr_id,
        four_back h.slot v.slot,
        byte_back h.offset v.offset,
        two_back h.dst v.dst,
      )
      refl

-- A packet of the manager whose header fields have the width that the source gives them: exactly one
-- command goes to the access point, and its bytes are a header of 11 bytes, from which the fields of
-- the manager's header are read back, and the packet.
pub data_rx-Read :
    (w : World) (h : SendHdr) (payload : List ℕ) (c : Coupler)
    → Wide h
    → c.has_transport ≡ true
    → (bytes : List ℕ) × (data_rx w h payload c
        ≡ emit (insert_msg cmd_ap_send bytes false none none) c)
      × (read_ctrl bytes ≡ ctrl_of h)
      × (drop 11 bytes ≡ payload)
unfolding data_rx send_ap_send insert ctrl_bytes
data_rx-Read w h payload c v set =
    (ctrl_bytes (ctrl_of h) ++ payload, rw set refl, read-ctrl_bytes h payload v, drop_lem)
  where
    drop_lem : drop 11 (ctrl_bytes (ctrl_of h) ++ payload) ≡ payload
    drop_lem = refl
