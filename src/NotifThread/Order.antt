-- ===== src/NotifThread/Order.antt =====
-- The queue of APInterface/APCCntrlNotifThread.cpp delivers every report once, in order and whole.
use apbridge.Prelude.{
  ℕ, zero, suc, ap₂, take-append-drop, ◌+◌, ◌-◌, ◌*◌, ◌/◌, replicate, ◌<◌, ◌≤◌, ◌≡◌, refl, sym, ◌∙◌,
  ap, Bool, true, false, List, [], ◌∷◌, ◌++◌, append_assoc, append-nil, Option, none, some, arith,
  if◌then◌else◌, length, take, lt→ltb, take-length_append, drop, length-append, length-replicate,
}
use apbridge.Prelude.Memory.{memcpy-zero, length-memcpy}
use apbridge.NotifThread.{
  Notice, started, connected, disconnected, received, ApcNotif, NotifThread, free_notif,
  insert_notif, apc_started, apc_connected, apc_disconnected, fill_payload, room_for, resize,
  message_received, send_stop_signal, delivered, notice_of, is_terminate, pop, thread_round, stop,
}

-- The call that a connector makes.
unfoldable pub post : Notice → NotifThread → NotifThread
post (started id) t = apc_started id t
post (connected id p) t = apc_connected id p t
post (disconnected id p) t = apc_disconnected id p t
post (received p bytes) t = message_received p bytes t

-- A report, or a round of the thread.
pub data Turn : Type 0 where
  posted : Notice → Turn
  round : Turn

abbrev pub reported : Option Notice → List Notice
reported none = []
reported (some n) = n ∷ []

-- What is delivered, in order, and the state after.
unfoldable pub run : List Turn → NotifThread → List Notice × NotifThread
run [] t = ([], t)
run (posted n ∷ turns) t = run turns (post n t)
run (round ∷ turns) t =
    let (out, t') = thread_round t in let (outs, t'') = run turns t' in (reported out ++ outs, t'')

unfoldable pub reports : List Turn → List Notice
reports [] = []
reports (posted n ∷ turns) = n ∷ reports turns
reports (round ∷ turns) = reports turns

-- The bytes that are handed on are the ones that came, whatever the vector held.
take-fill_payload : (old bytes : List ℕ) → take (length bytes) (fill_payload old bytes) ≡ bytes
unfolding fill_payload
take-fill_payload old [] = refl
take-fill_payload old (b ∷ bytes) =
    rw (lt→ltb 0 (length (b ∷ bytes)) (omega arith), memcpy-zero)
      (take-length_append (b ∷ bytes) (drop (0 + length (b ∷ bytes)) (room_for old (b ∷ bytes))))

-- The bytes of a message are copied into a vector that has room for all of them: the copy does not
-- change its length.
pub room_for-fits :
    (old bytes : List ℕ)
    → 0 < length bytes
    → (length bytes ≤ length (room_for old bytes))
      × (length (fill_payload old bytes) ≡ length (room_for old bytes))
unfolding fill_payload
room_for-fits old bytes some_byte = (
  room,
  rw (lt→ltb 0 (length bytes) some_byte)
      (length-memcpy (room_for old bytes) 0 bytes (omega (arith, room))),
)
  where
    room : length bytes ≤ length (room_for old bytes)
    room =
        unfold room_for resize in
        ground (
          arith,
          length-append old (replicate (length bytes / 32 * 32 + 0x20 - length old) 0),
          length-replicate {A = ℕ} (length bytes / 32 * 32 + 0x20 - length old) 0,
        )

-- Each record of the queue has a report to deliver, and they are these.
unfoldable pub Queued : List ApcNotif → List Notice → Type 0
Queued [] [] = Unit
Queued (n ∷ q) (r ∷ rs) = (is_terminate n.type ≡ false) × (notice_of n ≡ some r) × Queued q rs
Queued _ _ = ⊥

Queued-append :
    (q : List ApcNotif) (rs : List Notice) (n : ApcNotif) (r : Notice)
    → Queued q rs
    → is_terminate n.type ≡ false
    → notice_of n ≡ some r
    → Queued (q ++ n ∷ []) (rs ++ r ∷ [])
unfolding Queued
Queued-append [] [] n r k a b = (a, b, tt)
Queued-append (m ∷ q) (s ∷ rs) n r k a b = (k.0, k.1, Queued-append q rs n r k.2 a b)
Queued-append [] (s ∷ rs) n r k a b = absurd k
Queued-append (m ∷ q) [] n r k a b = absurd k

-- The rounds of the thread alone.
unfoldable pub run_rounds : ℕ → NotifThread → List Notice
run_rounds zero t = []
run_rounds (suc n) t =
    let (out, t') = thread_round t in let outs = run_rounds n t' in reported out ++ outs

Kept : NotifThread → List Notice → Type 0
Kept t rs = (t.is_work ≡ true) × (t.has_extern ≡ true) × Queued t.apc_notif_q rs

post-Kept :
    (n : Notice) (t : NotifThread) (rs : List Notice) → Kept t rs → Kept (post n t) (rs ++ n ∷ [])
unfolding Kept post apc_started apc_connected apc_disconnected message_received insert_notif
    notice_of delivered
post-Kept (started id) t rs k = rw k.0 (refl, k.1, Queued-append _ rs _ _ k.2 refl refl)
post-Kept (connected id p) t rs k = rw k.0 (refl, k.1, Queued-append _ rs _ _ k.2 refl refl)
post-Kept (disconnected id p) t rs k = rw k.0 (refl, k.1, Queued-append _ rs _ _ k.2 refl refl)
post-Kept (received p bytes) t rs k = rw k.0 (
  refl,
  k.1,
  Queued-append _ rs _ _ k.2 refl
      (ap (λ (l : List ℕ). some (received p l)) (take-fill_payload _ bytes)),
)

-- A round takes the report that waits the longest, if there is one.
pop-Kept :
    (q : List ApcNotif) (rs : List Notice) (t : NotifThread)
    → t.apc_notif_q ≡ q
    → t.is_work ≡ true
    → t.has_extern ≡ true
    → Queued q rs
    → (reported (pop q t).0 ≡ take 1 rs) × Kept (pop q t).1 (drop 1 rs)
unfolding Kept pop free_notif Queued
pop-Kept [] [] t e w x k = (refl, (w, x, rw e tt))
pop-Kept (n ∷ q) (r ∷ rs) t e w x k = (rw (k.0, x, k.1) refl, rw k.0 (w, x, k.2))
pop-Kept [] (r ∷ rs) t e w x k = absurd k
pop-Kept (n ∷ q) [] t e w x k = absurd k

round-Kept :
    (t : NotifThread) (rs : List Notice)
    → Kept t rs
    → (reported (thread_round t).0 ≡ take 1 rs) × Kept (thread_round t).1 (drop 1 rs)
unfolding Kept
round-Kept t rs k = rw (works t k.0) (pop-Kept t.apc_notif_q rs t refl k.0 k.1 k.2)
  where
    works : (t : NotifThread) → t.is_work ≡ true → thread_round t ≡ pop t.apc_notif_q t
    works t w =
        unfold thread_round in ap (λ (b : Bool). if b then pop t.apc_notif_q t else (none, t)) w

run_rounds-Kept : (rs : List Notice) (t : NotifThread) → Kept t rs → run_rounds (length rs) t ≡ rs
unfolding run_rounds
run_rounds-Kept [] t k = refl
run_rounds-Kept (r ∷ rs) t k =
    let (taken, k1) = round-Kept t (r ∷ rs) k in
    rw (taken, run_rounds-Kept rs (thread_round t).1 k1) refl

run-Kept :
    (turns : List Turn) (t : NotifThread) (rs : List Notice)
    → Kept t rs
    → (left : List Notice) × ((run turns t).0 ++ left ≡ rs ++ reports turns)
      × Kept (run turns t).1 left
unfolding run reports
run-Kept [] t rs k = (rs, sym (append-nil rs), k)
run-Kept (posted n ∷ turns) t rs k =
    let (left, same, k') = run-Kept turns (post n t) (rs ++ n ∷ []) (post-Kept n t rs k) in
    (left, same ∙ append_assoc rs (n ∷ []) (reports turns), k')
run-Kept (round ∷ turns) t rs k =
    let (taken, k1) = round-Kept t rs k in
    let (left, same, k2) = run-Kept turns (thread_round t).1 (drop 1 rs) k1 in
    (
      left,
      append_assoc (reported (thread_round t).0) _ left
          ∙ ap₂ ◌++◌ taken same
          ∙ sym (append_assoc (take 1 rs) (drop 1 rs) (reports turns))
          ∙ ap (λ (l : List Notice). l ++ reports turns) (take-append-drop 1 rs),
      k2,
    )

-- While the thread works for a client, from an empty queue on, reports and rounds in any order: what
-- is delivered are the first of the reports, each once, in the order in which they came and with
-- the bytes they came with; the others wait in the queue, and further rounds, one for each,
-- deliver them.
pub run-fifo :
    (turns : List Turn) (t : NotifThread)
    → t.is_work ≡ true
    → t.has_extern ≡ true
    → t.apc_notif_q ≡ []
    → (left : List Notice) × ((run turns t).0 ++ left ≡ reports turns)
      × (run_rounds (length left) (run turns t).1 ≡ left)
unfolding Kept Queued
run-fifo turns t w x e =
    let (left, same, k) = run-Kept turns t [] (w, x, rw e tt) in
    (left, same, run_rounds-Kept left _ k)

-- A stopped thread has made no call since the stop, whatever was in the queue, and takes no report
-- any more.
pub stop-silent :
    (t : NotifThread) (n : Notice)
    → t.is_work ≡ true
    → t.has_thread ≡ true
    → ((stop t).0 ≡ none) × (post n (stop t).1 ≡ (stop t).1)
unfolding stop thread_round send_stop_signal pop free_notif post apc_started apc_connected
    apc_disconnected message_received
stop-silent t (started id) w x = rw (x, w) (refl, refl)
stop-silent t (connected id p) w x = rw (x, w) (refl, refl)
stop-silent t (disconnected id p) w x = rw (x, w) (refl, refl)
stop-silent t (received p bytes) w x = rw (x, w) (refl, refl)
