-- ===== src/ApcSerializer/Examples.antt =====
-- The theorems on APInterface/APCSerializer.cpp at a handler that keeps the messages it gets.
use apbridge.Prelude.{ℕ, ◌≡◌, ◌⊎◌, refl, false, List, [], ◌∷◌, ◌++◌, some, arith}
use apbridge.ApcProto.{ApcError, apc_ok, apc_net_txdone, apc_max_msg_size}
use apbridge.ApcSerializer.{
  ApcSerializer, Message, new_serializer, data_received, prep_msg, is_ok, convert, convert_field,
  swap_at, header, be16, be32,
}
use apbridge.ApcSerializer.Framing.{read_all}
use apbridge.ApcSerializer.Deliver.{Agrees}
use apbridge.ApcSerializer.Calls.{
  new_serializer-Agrees, data_received-read_all, calls, whole, calls-read_all,
}
use apbridge.ApcSerializer.Roundtrip.{prep_msg-read_all}

abbrev keep : List Message → Message → ApcError × List Message
keep ms m = (apc_ok, m ∷ ms)

abbrev message : Message
message = record { type = apc_net_txdone; flags = 0; my_seq = 5; your_seq = 70000; payload = [] }

abbrev bytes : List ℕ
bytes = header message 3 ++ (2 ∷ 1 ∷ 0 ∷ [])

data_received-read_all_example :
    let r = read_all keep apc_max_msg_size [] [] bytes in
    (z' : ApcSerializer) × (data_received keep (new_serializer apc_max_msg_size) [] bytes
      ≡ some (r.0, z', r.2))
    × ((is_ok r.0 ≡ false) ⊎ Agrees apc_max_msg_size z' r.1)
data_received-read_all_example =
    data_received-read_all keep apc_max_msg_size (omega arith) (omega arith)
      (new_serializer apc_max_msg_size) [] [] bytes
      (new_serializer-Agrees apc_max_msg_size (omega arith) (omega arith))

calls-read_all_example :
    calls keep (bytes ∷ bytes ∷ []) (new_serializer apc_max_msg_size) []
    ≡ (let r = read_all keep apc_max_msg_size [] [] (whole (bytes ∷ bytes ∷ [])) in some (r.0, r.2))
calls-read_all_example =
    calls-read_all keep apc_max_msg_size (omega arith) (omega arith) (bytes ∷ bytes ∷ []) []

prep_msg-read_all_example :
    (let (res, s') = keep [] (record message { payload = 1 ∷ 2 ∷ 0 ∷ [] }) in
      read_all keep apc_max_msg_size [] [] bytes ≡ (res, [], s'))
prep_msg-read_all_example =
    prep_msg-read_all keep apc_max_msg_size apc_max_msg_size 19 message (1 ∷ []) (2 ∷ 0 ∷ []) bytes
      [] written (omega arith) (omega arith) (omega arith) (omega arith)
  where
    written : prep_msg apc_max_msg_size message (1 ∷ []) (2 ∷ 0 ∷ []) ≡ (apc_ok, 19, some bytes)
    written = unfold header be16 be32 prep_msg convert convert_field swap_at in refl
