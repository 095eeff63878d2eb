-- ===== src/ApmTransport/Examples.antt =====
-- The theorems on APInterface/APMTransport.cpp at a transport with two commands.
use Prim.Native.Nat.{bit_xor}
use apbridge.Prelude.{suc, ◌≡◌, inl, refl, true, false, [], ◌∷◌, ◌++◌, none, arith, replicate}
use apbridge.ApcProto.{apc_ok}
use apbridge.ApmTransport.State.{
  Params, Transport, Command, AptHdr, new_transport, cmd_getparam, cmd_join, cmd_disconnect,
  param_macaddr, rc_ok,
}
use apbridge.ApmTransport.Send.{wire, insert_command, hdr_length, new_hdr, serialize, parse}
use apbridge.ApmTransport.Receive.{Handlers, flag, handle_msg}
use apbridge.ApmTransport.Retry.{sent, timeouts, Waiting, farewell, timeouts-sent}
use apbridge.ApmTransport.Response.{Advanced, handle_msg-Advanced, handle_msg-overtaken}
use apbridge.ApmTransport.Fifo.{answer_hdr, answer_all, all_out, answer_all-out, parse-serialize}

abbrev params : Params
params = record {
  max_queue_size = 16;
  high_queue_watermark = 12;
  low_queue_watermark = 6;
  ping_timeout = 1500;
  retry_delay = 100;
  retry_timeout = 1200;
  max_retries = 3;
  max_packet_age = 1500;
}

-- Objects that take everything and call nothing.
abbrev quiet : Handlers
quiet = record {
  handle_cmd = λ _ _ t. (apc_ok, t);
  handle_error = λ _ _ t. t;
  respond = λ _ _ _ t. t;
  respond_error = λ _ _ _ t. t;
}

abbrev fresh : Transport
fresh = new_transport params false 0 true 3 0

abbrev ping : Command
ping = record {
  cmd_id = cmd_getparam;
  payload = param_macaddr ∷ [];
  is_synch = false;
  res_callback = none;
  err_res_callback = none;
  timestamp = 0;
}

abbrev join : Command
join = record {
  cmd_id = cmd_join;
  payload = [];
  is_synch = false;
  res_callback = none;
  err_res_callback = none;
  timestamp = 0;
}

abbrev urgent : Command
urgent = record {
  cmd_id = cmd_disconnect;
  payload = [];
  is_synch = true;
  res_callback = none;
  err_res_callback = none;
  timestamp = 0;
}

-- The ping was sent.
abbrev busy : Transport
busy = record fresh { pending = true; output_queue = ping ∷ join ∷ [] }

busy-Waiting : Waiting ping (join ∷ []) busy
unfolding new_transport
busy-Waiting = record { ready = refl; pending = refl; front = refl }

abbrev event_hdr : AptHdr
event_hdr = record { cmd_id = 0x0f; length_field = 1; flags = 2 }

timeouts-sent_example :
    (sent (timeouts 2 busy).events
      ≡ replicate 2 (wire busy.resp_packet_id ping) ++ sent busy.events)
    × ((timeouts (suc busy.params.max_retries) busy).events
        ≡ farewell busy ++ (timeouts busy.params.max_retries busy).events)
timeouts-sent_example =
    timeouts-sent ping (join ∷ []) 2 busy busy-Waiting (unfold new_transport in refl)
      (unfold new_transport in omega arith) (unfold new_transport in omega arith)

handle_msg-Advanced_example :
    (let out = handle_msg quiet (answer_hdr 0 ping) (rc_ok ∷ []) busy in
      (out.0 ≡ apc_ok)
      × Advanced (bit_xor busy.resp_packet_id 2) (join ∷ []) (sent busy.events) out.1)
handle_msg-Advanced_example =
    handle_msg-Advanced quiet (answer_hdr 0 ping) ping (join ∷ []) busy refl (unfold flag in refl)
      refl (unfold flag new_transport in refl) (unfold new_transport in refl)

handle_msg-overtaken_example :
    (let t' = insert_command true urgent busy in
      (t'.output_queue ≡ urgent ∷ ping ∷ join ∷ [])
      × (sent t'.events ≡ sent busy.events)
      × (handle_msg quiet (answer_hdr 0 ping) (rc_ok ∷ []) t' ≡ (apc_ok, t')))
handle_msg-overtaken_example =
    handle_msg-overtaken quiet (answer_hdr 0 ping) urgent ping (join ∷ []) (rc_ok ∷ []) busy refl
      refl (unfold flag in refl) refl (omega arith)

answer_all-out_example :
    (let t' = answer_all quiet (ping ∷ join ∷ []) busy in
      (t'.output_queue ≡ [])
      × (t'.pending ≡ false)
      × (sent t'.events ≡ all_out (bit_xor busy.resp_packet_id 2) (join ∷ []) (sent busy.events)))
answer_all-out_example =
    answer_all-out quiet ping (join ∷ []) busy refl (unfold new_transport in refl)
      (inl (unfold new_transport in refl))

parse-serialize_example :
    parse event_hdr (serialize (new_hdr cmd_join 2 8) ++ 1 ∷ 2 ∷ [])
    ≡ (hdr_length, record { cmd_id = cmd_join; length_field = 2; flags = 8 })
parse-serialize_example = parse-serialize event_hdr cmd_join 2 8 (1 ∷ 2 ∷ []) (omega arith)
