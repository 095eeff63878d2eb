-- ===== src/ApCoupler/Resets.antt =====
-- The resets in `prepareAP_p` of APInterface/APCoupler.cpp.
use apbridge.Prelude.{
  Bool-cases, inl, inr, ℕ, zero, suc, ◌+◌, ◌<◌, ◌≤◌, ◌≡◌, refl, ◌∙◌, ap, true, false, List, [], ◌∷◌,
  ◌++◌, some, arith, replicate, le→ltb-false,
}
use apbridge.ApCoupler.State
use apbridge.ApCoupler.State.{
  Call, disable_abort, hw_reset_ap, stop_node, World, Coupler, emit, emit_through,
}
use apbridge.ApCoupler.Send.{has_any, e_timeout, e_apm_lost, e_ap_reset}
use apbridge.ApCoupler.Machine.{
  Place, Look, preparing, no_boot, prepare, prepare_ap_p, resume_at, turn, look, after_look, got,
  boots, finish_of,
}
use apbridge.ApCoupler.Session.{Act, input, look_in, passed, act, handle, run}

-- Some time passes in which nothing comes, the thread looks at the events, and goes on.
unfoldable pub silence : ℕ → ℕ → List Act
silence zero msec = []
silence (suc n) msec = input (passed msec 0) ∷ look_in ∷ look_in ∷ silence n msec

abbrev waited : ℕ → Coupler → Coupler
waited msec c = record c { now = c.now + msec; sys_now = c.sys_now + 0; events = 0 }

look-late :
    (finish : ℕ) (c : Coupler)
    → c.events ≡ 0
    → finish ≤ c.now
    → look boots (some finish) c ≡ got e_timeout (record c { events = 0 })
unfolding look
look-late finish c none_came late = rw (none_came, le→ltb-false _ _ late) refl

finish_of-real :
    (timeout : ℕ) (c : Coupler) → 0 < timeout → finish_of timeout c ≡ some (c.now + timeout)
finish_of-real timeout c real = ground (arith, real)

silent_step :
    (w : World) (k n msec timeout : ℕ) (c : Coupler)
    → c.events ≡ 0
    → 0 < timeout
    → timeout ≤ msec
    → run w (silence (suc k) msec) (preparing n timeout (finish_of timeout c), c)
      ≡ run w (silence k msec) (no_boot n timeout (waited msec c))
unfolding run act handle turn after_look resume_at silence
silent_step w k n msec timeout c none_came real enough = rw (finish_of-real timeout c real) (
    ap
      (λ (l : Look).
        let s = after_look w (preparing n timeout (some (c.now + timeout))) l in
        run w (silence k msec) (turn w s.0 s.1))
      (look-late (c.now + timeout) (record c { now = c.now + msec; sys_now = c.sys_now + 0 })
        none_came (omega (arith, enough))))

abbrev reset_after : ℕ → Coupler → Coupler
reset_after msec c = emit hw_reset_ap (waited msec c)

no_boot-reset :
    (n msec timeout : ℕ) (c : Coupler)
    → c.has_transport ≡ true
    → no_boot (suc n) timeout (waited msec c) ≡ (
      preparing n c.hw_reset_timeout_msec (finish_of c.hw_reset_timeout_msec (reset_after msec c)),
      reset_after msec c,
    )
unfolding no_boot
no_boot-reset n msec timeout c set = rw set refl

replicate_next :
    {A : Type 0}
    → (n : ℕ) (x : A) (xs : List A) → replicate n x ++ x ∷ xs ≡ x ∷ (replicate n x ++ xs)
replicate_next zero x xs = refl
replicate_next (suc n) x xs = ap (λ (ys : List _). x ∷ ys) (replicate_next n x xs)

silent_lem :
    (w : World) (n msec timeout : ℕ) (c : Coupler)
    → c.events ≡ 0
    → c.has_transport ≡ true
    → 0 < timeout
    → timeout ≤ msec
    → 0 < c.hw_reset_timeout_msec
    → c.hw_reset_timeout_msec ≤ msec
    → (run w (silence (suc n) msec) (preparing n timeout (finish_of timeout c), c)).1.calls
      ≡ stop_node ∷ (replicate n hw_reset_ap ++ c.calls)
unfolding run silence no_boot
silent_lem w zero msec timeout c none_came set real enough _ _ =
    ap (λ (s : Place × Coupler). s.1.calls) (silent_step w 0 0 msec timeout c none_came real enough)
silent_lem w (suc n) msec timeout c none_came set real enough hw_real hw_enough =
    ap (λ (s : Place × Coupler). s.1.calls)
      (silent_step w (suc n) (suc n) msec timeout c none_came real enough
        ∙ ap (run w (silence (suc n) msec)) (no_boot-reset n msec timeout c set))
    ∙ (silent_lem w n msec c.hw_reset_timeout_msec (reset_after msec c) refl set hw_real hw_enough
          hw_real hw_enough
        ∙ ap (λ (calls : List Call). stop_node ∷ calls) (replicate_next n hw_reset_ap c.calls))

-- The state machine resets or disconnects the access point, for any events but a boot, and then nothing
-- comes for as long as each of its timeouts, which are not 0, four times in a row. Then the access
-- point is reset by hardware three times more, and after that the program is asked to stop.
pub prepare-gives_up :
    (w : World) (e msec : ℕ) (c : Coupler)
    → c.events ≡ 0
    → c.has_transport ≡ true
    → has_any e boots ≡ false
    → 0 < c.hw_reset_timeout_msec
    → c.hw_reset_timeout_msec ≤ msec
    → 0 < c.disconnect_timeout_short_msec
    → c.disconnect_timeout_short_msec ≤ msec
    → 0 < c.disconnect_timeout_long_msec
    → c.disconnect_timeout_long_msec ≤ msec
    → (run w (silence 4 msec) (prepare_ap_p w e c)).1.calls
      ≡ stop_node ∷ hw_reset_ap ∷ hw_reset_ap ∷ hw_reset_ap ∷ (prepare_ap_p w e c).1.calls
unfolding prepare_ap_p prepare
prepare-gives_up w e msec c none_came set no_boot_yet hw_real hw short_real short long_real long =
    elim (Bool-cases (has_any e e_apm_lost)) [
      | inl lost ↦
          rw (no_boot_yet, lost)
            (silent_lem w 3 msec _
              (emit_through c.has_transport hw_reset_ap
                (emit_through c.has_transport disable_abort c))
              none_came set hw_real hw hw_real hw)
      | inr there ↦ elim (Bool-cases (has_any e e_ap_reset)) [
        | inl reset ↦
            rw (no_boot_yet, there, reset)
              (silent_lem w 3 msec _
                (emit_through c.has_transport (State.disconnect_ap true)
                  (emit_through c.has_transport disable_abort c))
                none_came set short_real short hw_real hw)
        | inr other ↦
            rw (no_boot_yet, there, other)
              (silent_lem w 3 msec _
                (emit_through c.has_transport (State.disconnect_ap true)
                  (emit_through c.has_transport disable_abort c))
                none_came set long_real long hw_real hw)
      ]
    ]
