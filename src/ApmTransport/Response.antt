-- ===== src/ApmTransport/Response.antt =====
-- Responses of the access point in APInterface/APMTransport.cpp: which of them count, and what the
-- one that counts leads to.
use Prim.Native.Nat.{bit_xor}
use apbridge.Prelude.{
  ℕ, ◌≡◌, ◌≢◌, ◌⊎◌, inl, inr, refl, sym, ap, subst, ◌∙◌, Bool, true, false, not, ◌&&◌, ◌||◌, List,
  [], ◌∷◌, ◌++◌, arith, ◌==◌, ==-refl, ne→==-false, if_both, Bool-cases,
}
use apbridge.ApcProto.{ApcError, apc_ok}
use apbridge.ApmTransport.State.{Transport, Command, AptHdr, rc_ok}
use apbridge.ApmTransport.Send.{
  wire, send, send_front, send_command, start_retry_timer, ping_timer, stop_retry_timer, push,
  insert_command, pause_manager, check_queue_timer, queue_check_timer,
}
use apbridge.ApmTransport.Receive.{
  Handlers, flag, count_response, answered, take_off, resume_manager, give, respond_front,
  respond_queue, handle_response, match_response, handle_msg,
}
use apbridge.ApmTransport.Retry.{sent}

-- The next command of the queue as it goes out.
abbrev pub next_out : ℕ → List Command → List (List ℕ)
next_out id [] = []
next_out id (cmd ∷ rest) = wire id cmd ∷ []

abbrev pub some_left : List Command → Bool
some_left [] = false
some_left (cmd ∷ rest) = true

-- The transport after the answer to the command before `rest`.
pub record Advanced (id : ℕ) (rest : List Command) (before : List (List ℕ)) (t : Transport)
    : Type 0 where
  pub ready : t.is_ready ≡ true
  pub queue : t.output_queue ≡ rest
  pub response_id : t.resp_packet_id ≡ id
  pub pending : t.pending ≡ some_left rest
  pub out : sent t.events ≡ next_out id rest ++ before

send_front-Advanced :
    (rest : List Command) (t : Transport)
    → t.is_ready ≡ true
    → t.pending ≡ false
    → t.output_queue ≡ rest
    → Advanced t.resp_packet_id rest (sent t.events) (send_front true rest t)
unfolding send_front
send_front-Advanced [] t ready idle e = record {
  ready = ready;
  queue = e;
  response_id = refl;
  pending = idle;
  out = refl;
}
send_front-Advanced (cmd ∷ rest) t ready idle e =
    if_both (Advanced t.resp_packet_id (cmd ∷ rest) (sent t.events))
      ((true && t.pending) || (not true && not t.pending)) t (send_command cmd t)
      (λ busy. absurd (clash busy)) (λ _. goes)
  where
    clash : ((true && t.pending) || (not true && not t.pending)) ≡ true → ⊥
    clash busy = ground arith

    goes : Advanced t.resp_packet_id (cmd ∷ rest) (sent t.events) (send_command cmd t)
    goes =
        unfold send_command start_retry_timer ping_timer sent in
        record { ready = ready; queue = e; response_id = refl; pending = refl; out = refl }

send-Advanced :
    (rest : List Command) (t : Transport)
    → t.is_ready ≡ true
    → t.pending ≡ false
    → t.output_queue ≡ rest
    → Advanced t.resp_packet_id rest (sent t.events) (send true t)
unfolding send
send-Advanced rest t ready idle e =
    if_both (Advanced t.resp_packet_id rest (sent t.events)) (not t.is_ready) t
      (send_front true t.output_queue t) (λ down. absurd (clash down))
      (λ _.
        subst
          (λ (q : List Command).
            Advanced t.resp_packet_id rest (sent t.events) (send_front true q t))
          (sym e) (send_front-Advanced rest t ready idle e))
  where
    clash : not t.is_ready ≡ true → ⊥
    clash down = ground arith

-- Telling the manager to go on changes nothing of the queue.
resume_manager-Advanced :
    (below : Bool) (rest : List Command) (t : Transport)
    → t.is_ready ≡ true
    → t.pending ≡ false
    → t.output_queue ≡ rest
    → Advanced t.resp_packet_id rest (sent t.events) (send true (resume_manager below t))
unfolding resume_manager
resume_manager-Advanced false rest t ready idle e = send-Advanced rest t ready idle e
resume_manager-Advanced true rest t ready idle e = unfold sent in send-Advanced rest _ ready idle e

module _ (h : Handlers) (hdr : AptHdr) (cmd : Command) (rest : List Command) (t : Transport)
    (front : t.output_queue ≡ cmd ∷ rest) (response : flag 0 hdr.flags ≡ 1) where
  -- A response to another command than the first of the queue, or with another packet number, is
  -- passed over: no error, and the transport is as it was.
  pub handle_msg_other :
      (bytes : List ℕ)
      → (hdr.cmd_id ≢ cmd.cmd_id) ⊎ (flag 1 hdr.flags ≢ t.resp_packet_id)
      → handle_msg h hdr bytes t ≡ (apc_ok, t)
  unfolding handle_msg match_response
  handle_msg_other bytes (inl other) = simp (response, front, ne→==-false _ _ other) refl
  handle_msg_other bytes (inr other) = elim (Bool-cases (hdr.cmd_id == cmd.cmd_id)) [
    | inl same ↦ simp (response, front, same, ne→==-false _ _ other) refl
    | inr no_match ↦ simp (response, front, no_match) refl
  ]

  handle_msg_match :
      (bytes : List ℕ)
      → hdr.cmd_id ≡ cmd.cmd_id
      → flag 1 hdr.flags ≡ t.resp_packet_id
      → handle_msg h hdr bytes t ≡ handle_response h hdr bytes t
  unfolding handle_msg match_response
  handle_msg_match bytes same number =
      simp (response, front, same, number, ==-refl cmd.cmd_id, ==-refl t.resp_packet_id) refl

  -- The answer without data to the first command of the queue takes it off, the packet number
  -- changes, and the next command goes out with the new number, if there is one; nothing else is
  -- written, and the transport waits for an answer exactly if there was a next command. The output
  -- is ready.
  pub handle_msg-Advanced :
      hdr.cmd_id ≡ cmd.cmd_id
      → flag 1 hdr.flags ≡ t.resp_packet_id
      → t.is_ready ≡ true
      → (let out = handle_msg h hdr (rc_ok ∷ []) t in
          (out.0 ≡ apc_ok) × Advanced (bit_xor t.resp_packet_id 2) rest (sent t.events) out.1)
  unfolding respond_front give
  handle_msg-Advanced same number ready =
      subst
        (λ (r : ApcError × Transport).
          (r.0 ≡ apc_ok) × Advanced (bit_xor t.resp_packet_id 2) rest (sent t.events) r.1)
        (sym (handle_msg_match (rc_ok ∷ []) same number ∙ at_front)) (refl, advanced)
    where
      t2 : Transport
      t2 = record (count_response 1 (stop_retry_timer t)) {
        resp_packet_id = bit_xor t.resp_packet_id 2;
      }

      at_front :
          handle_response h hdr (rc_ok ∷ []) t ≡ respond_front h cmd rest hdr (rc_ok ∷ []) rc_ok t2
      at_front =
          unfold handle_response count_response stop_retry_timer in
          ap (λ (q : List Command). respond_queue h q hdr (rc_ok ∷ []) rc_ok t2) front
          ∙ unfold respond_queue in refl

      advanced :
          Advanced
            (bit_xor t.resp_packet_id 2)
            rest
            (sent t.events)
            (respond_front h cmd rest hdr (rc_ok ∷ []) rc_ok t2).1
      advanced =
          unfold take_off answered count_response stop_retry_timer sent in
          resume_manager-Advanced _ rest (answered cmd rest t2) ready refl refl

send_busy : (t : Transport) → t.pending ≡ true → send true t ≡ t
unfolding send
send_busy t busy =
    if_both (λ (t' : Transport). t' ≡ t) (not t.is_ready) t (send_front true t.output_queue t)
      (λ _. refl) (λ _. waits t.output_queue)
  where
    waits : (queue : List Command) → send_front true queue t ≡ t
    waits [] = unfold send_front in refl
    waits (cmd ∷ rest) = unfold send_front in simp busy refl

-- The queue and what was written, through the rest of `insertMsg`.
abbrev Quiet : List Command → List (List ℕ) → Transport → Type 0
Quiet queue before t = (t.output_queue ≡ queue) × (sent t.events ≡ before)

pause_manager-Quiet :
    (queue : List Command) (before : List (List ℕ)) (at : Bool) (t : Transport)
    → Quiet queue before t
    → Quiet queue before (pause_manager at t)
unfolding pause_manager sent
pause_manager-Quiet queue before false t q = q
pause_manager-Quiet queue before true t q = q

check_queue_timer-Quiet :
    (queue : List Command) (before : List (List ℕ)) (front : List Command) (t : Transport)
    → Quiet queue before t
    → Quiet queue before (check_queue_timer front t)
unfolding check_queue_timer queue_check_timer sent
check_queue_timer-Quiet queue before [] t q = q
check_queue_timer-Quiet queue before (cmd ∷ rest) t q = q

insert_command-Quiet :
    (urgent : Command) (t : Transport)
    → t.pending ≡ true
    → Quiet (urgent ∷ t.output_queue) (sent t.events) (insert_command true urgent t)
unfolding insert_command
insert_command-Quiet urgent t busy = check_queue_timer-Quiet _ _ _ _ (
    pause_manager-Quiet _ _ _ (send true (push true urgent t)) (
      subst (λ (t' : Transport). Quiet (urgent ∷ t.output_queue) (sent t.events) t')
        (sym (send_busy (push true urgent t) pushed)) (unfold push in (refl, refl))))
  where
    pushed : (push true urgent t).pending ≡ true
    pushed = unfold push in busy

-- While an answer to `cmd` is awaited, a command of another kind that is put in front of it makes
-- the transport pass over that answer, whatever it says: the command stays in the queue, and the
-- one in front has not been written.
pub handle_msg-overtaken :
    (h : Handlers) (hdr : AptHdr) (urgent cmd : Command) (rest : List Command) (bytes : List ℕ)
    (t : Transport)
    → t.output_queue ≡ cmd ∷ rest
    → t.pending ≡ true
    → flag 0 hdr.flags ≡ 1
    → hdr.cmd_id ≡ cmd.cmd_id
    → urgent.cmd_id ≢ cmd.cmd_id
    → (let t' = insert_command true urgent t in
        (t'.output_queue ≡ urgent ∷ cmd ∷ rest)
        × (sent t'.events ≡ sent t.events)
        × (handle_msg h hdr bytes t' ≡ (apc_ok, t')))
handle_msg-overtaken h hdr urgent cmd rest bytes t front busy response same other =
    let (queue, out) = insert_command-Quiet urgent t busy in
    let queue' = queue ∙ ap (λ (q : List Command). urgent ∷ q) front in
    (
      queue',
      out,
      handle_msg_other h hdr urgent (cmd ∷ rest) (insert_command true urgent t) queue' response
          bytes (inl (λ e. other (sym e ∙ same))),
    )
