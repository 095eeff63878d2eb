-- ===== src/ApmTransport/Fifo.antt =====
-- The queue of APInterface/APMTransport.cpp under a run of answers, and the header of a packet.
use Prim.Native.Nat.{bit_xor}
use apbridge.Prelude.{
  ℕ, ◌+◌, ◌%◌, ◌^◌, ◌<◌, ◌≡◌, inl, inr, refl, sym, ap, subst, ◌∙◌, true, false, List, [], ◌∷◌, ◌++◌,
  arith, leb, le→leb, length,
}
use apbridge.ApmTransport.State.{Transport, Command, AptHdr, rc_ok}
use apbridge.ApmTransport.Send.{wire, hdr_length, new_hdr, serialize, parse}
use apbridge.ApmTransport.Receive.{Handlers, flag, handle_msg}
use apbridge.ApmTransport.Invariant.{IsPacketId}
use apbridge.ApmTransport.Retry.{sent}
use apbridge.ApmTransport.Response.{handle_msg-Advanced}

-- The access point's answer to a command that was sent with the packet number `id`.
abbrev pub answer_hdr : ℕ → Command → AptHdr
answer_hdr id cmd = record { cmd_id = cmd.cmd_id; length_field = 1; flags = 1 + id }

-- Each command is answered in turn.
unfoldable pub answer_all : Handlers → List Command → Transport → Transport
answer_all h [] t = t
answer_all h (cmd ∷ rest) t =
    answer_all h rest (handle_msg h (answer_hdr t.resp_packet_id cmd) (rc_ok ∷ []) t).1

-- The commands on the wire, the last one first, the packet number changing from one to the next.
unfoldable pub all_out : ℕ → List Command → List (List ℕ) → List (List ℕ)
all_out id [] before = before
all_out id (cmd ∷ rest) before = all_out (bit_xor id 2) rest (wire id cmd ∷ before)

toggled : (n : ℕ) → IsPacketId n → IsPacketId (bit_xor n 2)
toggled n (inl e) = rw e (inr refl)
toggled n (inr e) = rw e (inl refl)

is_response : (n : ℕ) → IsPacketId n → flag 0 (1 + n) ≡ 1
unfolding flag
is_response n (inl e) = rw e refl
is_response n (inr e) = rw e refl

has_number : (n : ℕ) → IsPacketId n → flag 1 (1 + n) ≡ n
unfolding flag
has_number n (inl e) = rw e refl
has_number n (inr e) = rw e refl

-- From a transport whose first command was sent, a run of answers, each to the command that waits,
-- empties the queue: the commands behind the first are written in the order of the queue, each once
-- and each with the other packet number than the one before, and nothing waits in the end. The
-- output is ready, and the packet number is 0 or 2.
pub answer_all-out :
    (h : Handlers) (cmd : Command) (rest : List Command) (t : Transport)
    → t.output_queue ≡ cmd ∷ rest
    → t.is_ready ≡ true
    → IsPacketId t.resp_packet_id
    → (let t' = answer_all h (cmd ∷ rest) t in
        (t'.output_queue ≡ [])
        × (t'.pending ≡ false)
        × (sent t'.events ≡ all_out (bit_xor t.resp_packet_id 2) rest (sent t.events)))
unfolding answer_all all_out
answer_all-out h cmd [] t front ready id =
    let (ok, a) =
      handle_msg-Advanced h (answer_hdr t.resp_packet_id cmd) cmd [] t front (is_response _ id) refl
        (has_number _ id) ready in
    (a.queue, a.pending, a.out)
answer_all-out h cmd (next ∷ rest) t front ready id =
    let (ok, a) =
      handle_msg-Advanced h (answer_hdr t.resp_packet_id cmd) cmd (next ∷ rest) t front
        (is_response _ id) refl (has_number _ id) ready in
    let t' = (handle_msg h (answer_hdr t.resp_packet_id cmd) (rc_ok ∷ []) t).1 in
    let (queue, pending, out) =
      answer_all-out h next rest (handle_msg h (answer_hdr t.resp_packet_id cmd) (rc_ok ∷ []) t).1
        a.queue a.ready (subst IsPacketId (sym a.response_id) (toggled _ id)) in
    (
      queue,
      pending,
      out
          ∙ ap (λ (i : ℕ). all_out (bit_xor i 2) rest (sent t'.events)) a.response_id
          ∙ ap (λ (l : List (List ℕ)). all_out (bit_xor (bit_xor t.resp_packet_id 2) 2) rest l)
              a.out,
    )

-- The header that is written before a payload is read back as it was, with its three bytes, whatever
-- header was there, if the payload's length fits in a byte.
pub parse-serialize :
    (h : AptHdr) (id l f : ℕ) (payload : List ℕ)
    → l < 2 ^ 8
    → parse h (serialize (new_hdr id l f) ++ payload)
      ≡ (hdr_length, record { cmd_id = id; length_field = l; flags = f })
unfolding parse serialize new_hdr
parse-serialize h id l f payload small = rw (long, field) refl
  where
    long : leb 3 (length (id ∷ ((l % 2 ^ 16) % 2 ^ 8) % 2 ^ 8 ∷ f ∷ payload)) ≡ true
    long = le→leb _ _ (omega arith)

    field : ((l % 2 ^ 16) % 2 ^ 8) % 2 ^ 8 ≡ l
    field = omega (arith, small)
