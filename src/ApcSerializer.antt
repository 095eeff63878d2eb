-- ===== src/ApcSerializer.antt =====
-- APInterface/APCSerializer.h and APCSerializer.cpp: messages cut out of the TCP stream, and put
-- into it. A message in memory is its bytes. The host is little-endian (`L_ENDIAN`), so the macros
-- CONVERT_S, CONVERT_L and CONVERT_LL of common/common.h turn the bytes of a field round in both
-- directions. `trace_p` only logs and is left out.
pub mod Convert
pub mod Framing
pub mod Fill
pub mod Deliver
pub mod Round
pub mod Part
pub mod Stream
pub mod Calls
pub mod Undo
pub mod Roundtrip
pub mod Examples
use mathlib.Core.List.{reverse}
use apbridge.Prelude.{
  ℕ, zero, suc, ◌+◌, ◌-◌, ◌*◌, ◌/◌, ◌%◌, ◌^◌, Bool, true, false, not, ◌&&◌, List, [], ◌∷◌, ◌++◌,
  Option, none, some, if◌then◌else◌, ltb, ◌==◌, length, get_or, take, drop, replicate,
}
use apbridge.Prelude.Memory.{memcpy}
use apbridge.ApcProto.{
  ApcError, apc_ok, apc_err_size, apc_err_protocol, MsgType, apc_connect, apc_net_tx,
  apc_net_txdone, apc_time_map, apc_cookie_byte, apc_hdr_size, apc_msg_net_tx_size,
  apc_msg_net_txdone_size, apc_msg_timemap_size, apc_msg_connect_size,
}

abbrev pub is_ok : ApcError → Bool
is_ok apc_ok = true
is_ok _ = false

-- `converttype_t`
pub data ConvertType : Type 0 where
  host_to_net net_to_host : ConvertType

-- The `k` bytes at offset `n` turned round.
pub swap_at : ℕ → ℕ → List ℕ → List ℕ
swap_at n k xs = take n xs ++ (reverse (take k (drop n xs)) ++ drop (n + k) xs)

-- CONVERT_S, CONVERT_L and CONVERT_LL on the field of `k` bytes at offset `n`.
pub convert_field : ConvertType → ℕ → ℕ → List ℕ → List ℕ
convert_field host_to_net n k xs = swap_at n k xs
convert_field net_to_host n k xs = swap_at n k xs

pub convert_net_tx : ConvertType → List ℕ → List ℕ
convert_net_tx t xs = convert_field t 10 2 (convert_field t 5 4 (convert_field t 1 2 xs))

pub convert_timemap : ConvertType → List ℕ → List ℕ
convert_timemap t xs =
    convert_field t 20 2 (convert_field t 12 8 (convert_field t 8 4 (convert_field t 0 8 xs)))

pub convert_connect : ConvertType → List ℕ → List ℕ
convert_connect t xs = convert_field t 42 4 (convert_field t 37 4 (convert_field t 1 4 xs))

-- `CAPCSerializer::convert`, in place: the result and the payload after it.
unfoldable pub convert : ConvertType → MsgType → List ℕ → ApcError × List ℕ
convert t type xs =
    if type == apc_net_tx
    then (if ltb (length xs) apc_msg_net_tx_size
        then (apc_err_size, xs)
        else (apc_ok, convert_net_tx t xs))
    else if type == apc_net_txdone
    then (if ltb (length xs) apc_msg_net_txdone_size
        then (apc_err_size, xs)
        else (apc_ok, convert_field t 0 2 xs))
    else if type == apc_time_map
    then (if ltb (length xs) apc_msg_timemap_size
        then (apc_err_size, xs)
        else (apc_ok, convert_timemap t xs))
    else if type == apc_connect
    then (if ltb (length xs) apc_msg_connect_size
        then (apc_err_size, xs)
        else (apc_ok, convert_connect t xs))
    else (apc_ok, xs)

-- The bytes of `htons` and `htonl`.
pub be16 : ℕ → List ℕ
be16 v = (v / 2 ^ 8) % 2 ^ 8 ∷ v % 2 ^ 8 ∷ []

pub be32 : ℕ → List ℕ
be32 v = (v / 2 ^ 24) % 2 ^ 8 ∷ (v / 2 ^ 16) % 2 ^ 8 ∷ (v / 2 ^ 8) % 2 ^ 8 ∷ v % 2 ^ 8 ∷ []

-- `ntohs` and `ntohl` of the bytes at an offset.
pub from_be16 : List ℕ → ℕ → ℕ
from_be16 xs n = get_or xs n 0 * 2 ^ 8 + get_or xs (n + 1) 0

pub from_be32 : List ℕ → ℕ → ℕ
from_be32 xs n =
    get_or xs n 0 * 2 ^ 24
    + get_or xs (n + 1) 0 * 2 ^ 16
    + get_or xs (n + 2) 0 * 2 ^ 8
    + get_or xs (n + 3) 0

-- A message as the receiver's callback gets it.
pub record Message : Type 0 where
  pub type : MsgType
  pub flags : ℕ
  pub my_seq : ℕ
  pub your_seq : ℕ
  pub payload : List ℕ

-- The header bytes that `prepMsg` writes for a payload of `size` bytes.
pub header : Message → ℕ → List ℕ
header m size =
    replicate 4 apc_cookie_byte
    ++ (m.flags ∷ be32 m.my_seq ++ (be32 m.your_seq ++ (m.type ∷ be16 (size % 2 ^ 16))))

-- `prepMsg`. The payload comes in two parts; `m.payload` is not read. The option is the message in
-- `msg`, where it was written.
unfoldable pub prep_msg : ℕ → Message → List ℕ → List ℕ → ApcError × ℕ × Option (List ℕ)
prep_msg max_size m payload1 payload2 =
    let full_size = length payload1 + length payload2 in
    let msg_size = full_size + apc_hdr_size in
    if ltb max_size msg_size
    then (apc_err_size, msg_size, none)
    else (let (res, body) = convert host_to_net m.type (payload1 ++ payload2) in
        (res, msg_size, some (header m full_size ++ body)))

-- `CAPCSerializer`, its input side.
pub record ApcSerializer : Type 0 where
  pub inp_buf : List ℕ
  pub inp_num_received : ℕ
  pub inp_num_expected : ℕ

pub new_serializer : ℕ → ApcSerializer
new_serializer max_msg_size = record {
  inp_buf = replicate max_msg_size 0;
  inp_num_received = 0;
  inp_num_expected = apc_hdr_size;
}

-- `fillInpBuf_p`, with the bytes that it leaves.
pub fill_inp_buf : ApcSerializer → List ℕ → ApcSerializer × List ℕ
fill_inp_buf z bytes =
    let wanted = (z.inp_num_expected + 2 ^ 64 - z.inp_num_received) % 2 ^ 64 in
    let len = if ltb (length bytes) wanted then length bytes else wanted in
    (
      record z {
        inp_buf = memcpy z.inp_buf z.inp_num_received (take len bytes);
        inp_num_received = z.inp_num_received + len;
      },
      drop len bytes,
    )

-- The cookie is compared as a word; all of its bytes are the same.
pub has_cookie : List ℕ → Bool
has_cookie buf =
    get_or buf 0 0 == apc_cookie_byte
    && get_or buf 1 0 == apc_cookie_byte
    && get_or buf 2 0 == apc_cookie_byte
    && get_or buf 3 0 == apc_cookie_byte

-- The header fields and the payload that stand in the first `received` bytes of the buffer.
pub message_in : List ℕ → ℕ → Message
message_in buf received = record {
  type = get_or buf 13 0;
  flags = get_or buf 4 0;
  my_seq = from_be32 buf 5;
  your_seq = from_be32 buf 9;
  payload = take (received - apc_hdr_size) (drop apc_hdr_size buf);
}

-- The handler `m_pRxHandler` is a parameter: a state, and what `messageReceived` does to it.
module _ {S : Type 0} (receive : S → Message → ApcError × S) where
  -- What one step leaves: the result so far, the input side, the handler and the bytes left.
  abbrev pub After : Type 0
  After = ApcError × ApcSerializer × S × List ℕ

  -- The message is complete: it is converted in the buffer and handed on.
  pub deliver : ApcSerializer → S → List ℕ → After
  deliver z s rest =
      let m = message_in z.inp_buf z.inp_num_received in
      let (res, body) = convert net_to_host m.type m.payload in
      let z' = record z {
        inp_buf = memcpy z.inp_buf apc_hdr_size body;
        inp_num_received = 0;
        inp_num_expected = apc_hdr_size;
      } in
      if is_ok res
      then (let (res', s') = receive s (record m { payload = body }) in (res', z', s', rest))
      else (res, z', s, rest)

  -- From the second `fillInpBuf_p` to the end of the loop body.
  pub rest_of_round : ApcSerializer → S → List ℕ → After
  rest_of_round z s bytes =
      let (z', rest) =
        if not (z.inp_num_expected == z.inp_num_received) && ltb 0 (length bytes)
        then fill_inp_buf z bytes
        else (z, bytes) in
      if z'.inp_num_expected == z'.inp_num_received
      then deliver z' s rest
      else (apc_ok, z', s, rest)

  -- The loop body. An early return is an error here: it ends the loop too.
  pub round : ApcSerializer → S → List ℕ → After
  round z s bytes =
      let (z', rest) = fill_inp_buf z bytes in
      if z'.inp_num_received == apc_hdr_size
      then (let z'' = record z' {
        inp_num_expected = z'.inp_num_expected + from_be16 z'.inp_buf 14;
      } in
          if not (has_cookie z''.inp_buf)
          then (apc_err_protocol, z'', s, rest)
          else if ltb (length z''.inp_buf) z''.inp_num_expected
          then (apc_err_size, z'', s, rest)
          else rest_of_round z'' s rest)
      else rest_of_round z' s rest

  -- `while (receivedLen > 0 && res == APC_OK)`; `none` is the fuel's end.
  pub rounds : ℕ → ApcSerializer → S → List ℕ → Option (ApcError × ApcSerializer × S)
  rounds zero z s bytes = none
  rounds (suc fuel) z s [] = some (apc_ok, z, s)
  rounds (suc fuel) z s (b ∷ bytes) =
      let (res, z', s', rest) = round z s (b ∷ bytes) in
      let more = rounds fuel z' s' rest in if is_ok res then more else some (res, z', s')

  -- `dataReceived`, with a round for each byte and one to see the end.
  pub data_received : ApcSerializer → S → List ℕ → Option (ApcError × ApcSerializer × S)
  data_received z s bytes = rounds (suc (length bytes)) z s bytes
