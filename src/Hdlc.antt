-- ===== src/Hdlc.antt =====
-- APInterface/HDLC.h and HDLC.cpp: the framing of the serial line to the access point.
-- A `uint8_t` is a number below 256. `& 0xff` and `>> 8` are `% 256` and `/ 256`.
pub mod Table
pub mod Fcs
pub mod Reference
pub mod Residue
pub mod Frames
pub mod Stream
pub mod Examples
use Table.{fcs_entry}
use Prim.Native.Nat.{bit_xor}
use apbridge.Prelude.{
  ℕ, ◌+◌, ◌-◌, ◌*◌, ◌/◌, ◌%◌, ◌^◌, Bool, true, false, List, [], ◌∷◌, ◌++◌, ◌||◌, ◌&&◌, Option, none,
  some, if◌then◌else◌, ◌==◌, ltb, length, get_or, take,
}

abbrev pub hdlc_padding : ℕ
hdlc_padding = 0x7E

abbrev pub hdlc_escchar : ℕ
hdlc_escchar = 0x7D

abbrev pub hdlc_xorbyte : ℕ
hdlc_xorbyte = 0x20

-- The static `initFcs16`, `addOneByteToFcs16` and `closeFcs16`.
abbrev pub init_fcs16 : ℕ
init_fcs16 = 0xffff

pub add_one_byte_to_fcs16 : ℕ → ℕ → ℕ
add_one_byte_to_fcs16 fcs byte =
    bit_xor ((fcs % 2 ^ 16) / 2 ^ 8) (fcs_entry (bit_xor fcs byte % 2 ^ 8))

pub close_fcs16 : ℕ → ℕ
close_fcs16 fcs = bit_xor fcs 0xffff % 2 ^ 16

-- The loop of `computeFCS16`, whose body is the text of `addOneByteToFcs16`.
pub fcs_of : ℕ → List ℕ → ℕ
fcs_of fcs [] = fcs
fcs_of fcs (b ∷ bs) =
    fcs_of (bit_xor ((fcs % 2 ^ 16) / 2 ^ 8) (fcs_entry (bit_xor fcs b % 2 ^ 8))) bs

pub compute_fcs16 : List ℕ → ℕ
compute_fcs16 bytes = close_fcs16 (fcs_of init_fcs16 bytes)

pub is_special : ℕ → Bool
is_special b = b == hdlc_padding || b == hdlc_escchar

-- `appendHDLC(dst, src)`, with the loop over `src`.
pub append_hdlc : List ℕ → List ℕ → List ℕ
append_hdlc dst [] = dst
append_hdlc dst (b ∷ src) =
    append_hdlc
      (if is_special b then dst ++ hdlc_escchar ∷ bit_xor b hdlc_xorbyte ∷ [] else dst ++ b ∷ [])
      src

-- `encodeHDLC`: the packet and its check sequence, low byte first, between two paddings.
pub encode_hdlc : List ℕ → List ℕ
encode_hdlc src =
    let fcs = compute_fcs16 src in
    let fcsbuf = fcs % 2 ^ 8 ∷ (fcs / 2 ^ 8) % 2 ^ 8 ∷ [] in
    append_hdlc (append_hdlc (hdlc_padding ∷ []) src) fcsbuf ++ hdlc_padding ∷ []

pub data ParseState : Type 0 where
  hdlc_packet_complete hdlc_data hdlc_escape : ParseState

-- `CHDLC`. `has_handler` says whether `m_handler` is set.
pub record Chdlc : Type 0 where
  pub has_handler : Bool
  pub state : ParseState
  pub buffer : List ℕ
  pub running_fcs : ℕ

pub reset : Chdlc → Chdlc
reset h = record h { state = hdlc_packet_complete; buffer = []; running_fcs = init_fcs16 }

pub append : Chdlc → ℕ → Chdlc
append h byte = record h {
  buffer = h.buffer ++ byte ∷ [];
  running_fcs = add_one_byte_to_fcs16 h.running_fcs byte;
}

-- The argument, the last two bytes of the frame, is not looked at.
pub validate_checksum : Chdlc → ℕ → Bool
validate_checksum h frame_fcs = close_fcs16 h.running_fcs == 0xf47

-- The packet handed to `frameComplete`, if it is called.
pub callback : Chdlc → Option (List ℕ)
callback h = if h.has_handler && ltb 0 (length h.buffer) then some h.buffer else none

-- `CHDLC::addByte`, with the packet that it delivers.
pub end_frame : Chdlc → Option (List ℕ)
end_frame h =
    let len = length h.buffer in
    if ltb 2 len
    then (let fcs = (get_or h.buffer (len - 2) 0 * 256 + get_or h.buffer (len - 1) 0) % 2 ^ 16 in
        let h' = record h { buffer = take (len - 2) h.buffer } in
        if validate_checksum h' fcs then callback h' else none)
    else none

pub add_byte_in : ParseState → Chdlc → ℕ → Chdlc × Option (List ℕ)
add_byte_in hdlc_escape h b =
    (record (append h (bit_xor b hdlc_xorbyte)) { state = hdlc_data }, none)
add_byte_in _ h b =
    if b == hdlc_escchar
    then (record h { state = hdlc_escape }, none)
    else if b == hdlc_padding
    then (reset h, end_frame h)
    else (append h b, none)

pub add_byte : Chdlc → ℕ → Chdlc × Option (List ℕ)
add_byte h b = add_byte_in h.state h b

-- The constructor, which ends in `reset()`.
pub new_hdlc : Bool → Chdlc
new_hdlc handler =
    reset
      (record { has_handler = handler; state = hdlc_packet_complete; buffer = []; running_fcs = 0 })

pub collect : Option (List ℕ) → List (List ℕ) → List (List ℕ)
collect none rest = rest
collect (some packet) rest = packet ∷ rest

-- A run over the bytes of the line: the decoder after them, and the packets delivered, in order.
pub feed : Chdlc → List ℕ → Chdlc × List (List ℕ)
feed h [] = (h, [])
feed h (b ∷ bs) =
    let (h', out) = add_byte h b in let (h'', rest) = feed h' bs in (h'', collect out rest)
