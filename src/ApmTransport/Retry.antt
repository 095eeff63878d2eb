-- ===== src/ApmTransport/Retry.antt =====
-- The timer of APInterface/APMTransport.cpp that repeats a command which is not answered.
use apbridge.Prelude.{
  ℕ, zero, suc, ◌+◌, ◌%◌, ◌^◌, ◌≤◌, ◌<◌, ◌≡◌, refl, sym, ap, subst, ◌∙◌, true, false, ◌&&◌, List,
  [], ◌∷◌, ◌++◌, arith, if◌then◌else◌, ltb, lt→ltb, le→ltb-false, replicate, if_both, Bool-cases,
  inl, inr,
}
use apbridge.ApmTransport.State.{
  Transport, Command, Event, handle_data, send_reset_ap, ap_lost, cancel_ping_timer, stop_program,
}
use apbridge.ApmTransport.Send.{
  wire, send, send_front, send_command, send_retry, reopen, reopen_events, repeat_command,
  handle_retry_timeout, start_retry_timer, ping_timer, stop_ping_timer, abort, hw_reset_ap,
  send_ap_lost_notif, set_ap_connection_state,
}

-- What was written to the serial port, the last packet first.
unfoldable pub sent : List Event → List (List ℕ)
sent [] = []
sent (handle_data bytes ∷ es) = bytes ∷ sent es
sent (_ ∷ es) = sent es

unfoldable pub timeouts : ℕ → Transport → Transport
timeouts zero t = t
timeouts (suc n) t = handle_retry_timeout false (timeouts n t)

-- A command was sent and waits for its answer.
pub record Waiting (cmd : Command) (rest : List Command) (t : Transport) : Type 0 where
  pub ready : t.is_ready ≡ true
  pub pending : t.pending ≡ true
  pub front : t.output_queue ≡ cmd ∷ rest

-- What the repeats leave as it was.
record Same (t t' : Transport) : Type 0 where
  params : t'.params ≡ t.params
  response_id : t'.resp_packet_id ≡ t.resp_packet_id
  reconnect : t'.reconnect_serial ≡ t.reconnect_serial
  aborts : t'.abort_enabled ≡ t.abort_enabled

sent-reopen_events : (n : ℕ) (es : List Event) → sent (reopen_events n es) ≡ sent es
unfolding sent reopen_events
sent-reopen_events zero es = refl
sent-reopen_events (suc zero) es = refl
sent-reopen_events (suc (suc zero)) es = refl
sent-reopen_events (suc (suc (suc n))) es = refl

-- The transport after a repeat.
record Repeated (cmd : Command) (rest : List Command) (t t' : Transport) : Type 0 where
  waiting : Waiting cmd rest t'
  same : Same t t'
  out : sent t'.events ≡ wire t.resp_packet_id cmd ∷ sent t.events
  counted : t'.cur_retry_count ≡ (t.cur_retry_count + 1) % 2 ^ 32

send-Waiting :
    (cmd : Command) (rest : List Command) (t : Transport)
    → Waiting cmd rest t
    → send false t ≡ send_command cmd t
unfolding send send_front
send-Waiting cmd rest t w = simp (w.ready, w.front, w.pending) refl

-- What `handleRetryTimeout` does after the command was sent again.
abbrev recount : Transport → Transport
recount t = start_retry_timer (record t {
  stats = record t.stats { num_retries_sent = (t.stats.num_retries_sent + 1) % 2 ^ 32 };
  cur_retry_count = (t.cur_retry_count + 1) % 2 ^ 32;
})

recount-Repeated :
    (cmd : Command) (rest : List Command) (t t1 : Transport)
    → Waiting cmd rest t1
    → Same t t1
    → sent t1.events ≡ sent t.events
    → t1.cur_retry_count ≡ t.cur_retry_count
    → Repeated cmd rest t (recount (send false t1))
recount-Repeated cmd rest t t1 w same out count =
    subst (λ (t2 : Transport). Repeated cmd rest t (recount t2)) (sym (send-Waiting cmd rest t1 w))
      again
  where
    again : Repeated cmd rest t (recount (send_command cmd t1))
    again =
        unfold send_command start_retry_timer ping_timer sent in
        record {
          waiting = record { ready = w.ready; pending = refl; front = w.front };
          same = record {
            params = same.params;
            response_id = same.response_id;
            reconnect = same.reconnect;
            aborts = same.aborts;
          };
          out = rw (same.response_id, out) refl;
          counted = rw count refl;
        }

repeat_command-Repeated :
    (cmd : Command) (rest : List Command) (t : Transport)
    → Waiting cmd rest t
    → Repeated cmd rest t (repeat_command t)
unfolding repeat_command send_retry
repeat_command-Repeated cmd rest t w =
    if_both (λ (t1 : Transport). Repeated cmd rest t (recount (send false t1)))
      (t.reconnect_serial && ltb 0 t.cur_retry_count) (reopen t) t (λ _. opened)
      (λ _.
        recount-Repeated cmd rest t t w
          (record { params = refl; response_id = refl; reconnect = refl; aborts = refl }) refl refl)
  where
    opened : Repeated cmd rest t (recount (send false (reopen t)))
    opened =
        unfold reopen in
        recount-Repeated cmd rest t (reopen t)
          (record { ready = w.ready; pending = w.pending; front = w.front })
          (record { params = refl; response_id = refl; reconnect = refl; aborts = refl })
          (sent-reopen_events t.reopen_calls t.events) refl

-- After `n` timeouts, while there are repeats left.
record Tried (cmd : Command) (rest : List Command) (n : ℕ) (t t' : Transport) : Type 0 where
  waiting : Waiting cmd rest t'
  same : Same t t'
  out : sent t'.events ≡ replicate n (wire t.resp_packet_id cmd) ++ sent t.events
  counted : t'.cur_retry_count ≡ n

handle_retry_timeout-Tried :
    (cmd : Command) (rest : List Command) (n : ℕ) (t t' : Transport)
    → Tried cmd rest n t t'
    → n < t.params.max_retries
    → t.params.max_retries < 2 ^ 16
    → Tried cmd rest (suc n) t (handle_retry_timeout false t')
unfolding handle_retry_timeout
handle_retry_timeout-Tried cmd rest n t t' tried left small = rw more (record {
  waiting = again.waiting;
  same = record {
    params = again.same.params ∙ tried.same.params;
    response_id = again.same.response_id ∙ tried.same.response_id;
    reconnect = again.same.reconnect ∙ tried.same.reconnect;
    aborts = again.same.aborts ∙ tried.same.aborts;
  };
  out = again.out ∙ rw (tried.same.response_id, tried.out) refl;
  counted = again.counted ∙ omega (arith, tried.counted, left, small);
})
  where
    again : Repeated cmd rest t' (repeat_command t')
    again = repeat_command-Repeated cmd rest t' tried.waiting

    more : ltb t'.cur_retry_count t'.params.max_retries ≡ true
    more = rw (tried.counted, tried.same.params) (lt→ltb _ _ left)

timeouts-Tried :
    (cmd : Command) (rest : List Command) (n : ℕ) (t : Transport)
    → Waiting cmd rest t
    → t.cur_retry_count ≡ 0
    → n ≤ t.params.max_retries
    → t.params.max_retries < 2 ^ 16
    → Tried cmd rest n t (timeouts n t)
unfolding timeouts
timeouts-Tried cmd rest zero t w first le small = record {
  waiting = w;
  same = record { params = refl; response_id = refl; reconnect = refl; aborts = refl };
  out = refl;
  counted = first;
}
timeouts-Tried cmd rest (suc n) t w first le small =
    handle_retry_timeout-Tried cmd rest n t (timeouts n t)
      (timeouts-Tried cmd rest n t w first (omega (arith, le)) small) (omega (arith, le)) small

-- What the last timeout adds to the calls made, the last call first.
abbrev pub farewell : Transport → List Event
farewell t =
    if t.abort_enabled
    then (if t.reconnect_serial
        then stop_program ∷ send_reset_ap ∷ ap_lost ∷ cancel_ping_timer ∷ []
        else send_reset_ap ∷ ap_lost ∷ cancel_ping_timer ∷ [])
    else cancel_ping_timer ∷ []

last_timeout :
    (t : Transport)
    → ltb t.cur_retry_count t.params.max_retries ≡ false
    → (handle_retry_timeout false t).events ≡ farewell t ++ t.events
unfolding handle_retry_timeout stop_ping_timer abort hw_reset_ap send_ap_lost_notif
    set_ap_connection_state
last_timeout t none_left = elim (Bool-cases t.abort_enabled) [
  | inr on ↦ simp (none_left, on) refl
  | inl off ↦ elim (Bool-cases t.reconnect_serial) [
    | inl again ↦ simp (none_left, off, again) refl
    | inr gone ↦ simp (none_left, off, gone) refl
  ]
]

farewell-Same : (t t' : Transport) → Same t t' → farewell t' ≡ farewell t
farewell-Same t t' same = simp (same.aborts, same.reconnect) refl

-- A command that waits for its answer is written again, the same bytes each time, at each of the
-- first `maxRetries` timeouts of its timer, and nothing else is written. At the next one nothing is
-- written: the pings stop and, unless that is disabled, the access point is reported lost and
-- reset, and where the serial port is to be opened again the program stops. `maxRetries` is 16 bits
-- wide, and the output is ready.
pub timeouts-sent :
    (cmd : Command) (rest : List Command) (n : ℕ) (t : Transport)
    → Waiting cmd rest t
    → t.cur_retry_count ≡ 0
    → n ≤ t.params.max_retries
    → t.params.max_retries < 2 ^ 16
    → (sent (timeouts n t).events ≡ replicate n (wire t.resp_packet_id cmd) ++ sent t.events)
      × ((timeouts (suc t.params.max_retries) t).events
          ≡ farewell t ++ (timeouts t.params.max_retries t).events)
unfolding timeouts
timeouts-sent cmd rest n t w first le small =
    let all = timeouts-Tried cmd rest t.params.max_retries t w first (omega arith) small in
    (
      (timeouts-Tried cmd rest n t w first le small).out,
      last_timeout _ (
            rw (all.counted, all.same.params)
              (le→ltb-false t.params.max_retries t.params.max_retries (omega arith)))
          ∙ ap (λ (es : List Event). es ++ (timeouts t.params.max_retries t).events)
              (farewell-Same t (timeouts t.params.max_retries t) all.same),
    )
