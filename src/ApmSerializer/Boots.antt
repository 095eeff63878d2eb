-- ===== src/ApmSerializer/Boots.antt =====
-- The counter of boots in `handleCmd` of APInterface/APMSerializer.cpp.
use apbridge.Prelude.{
  ℕ, suc, ◌%◌, ◌≤◌, ◌≡◌, true, List, [], ◌∷◌, some, arith, if◌then◌else◌, ltb, ◌==◌, length,
  le→ltb-false,
}
use apbridge.ApmSerializer.{
  ap_lost_notice, ap_boot_notice, ApmSerializer, loc_notif_events, events_size, has_boot,
  handle_events, handle_cmd,
}

-- Commands and notifications, the last one first.
unfoldable pub run : ℕ → List (ℕ × List ℕ) → ApmSerializer → ApmSerializer
run beyond [] s = s
run beyond ((cmd_id, bytes) ∷ history) s = (handle_cmd beyond cmd_id bytes (run beyond history s)).2

-- The boots since anything else came; an event that is too short is as if it had not come.
unfoldable pub boots : List (ℕ × List ℕ) → ℕ
boots [] = 0
boots ((cmd_id, bytes) ∷ history) =
    let before = boots history in
    if cmd_id == loc_notif_events
    then (if ltb (length bytes) events_size
        then before
        else if has_boot bytes
        then suc before
        else 0)
    else 0

run-boot_counter :
    (beyond : ℕ) (history : List (ℕ × List ℕ)) (s : ApmSerializer)
    → s.boot_counter ≡ 0
    → (run beyond history s).boot_counter ≡ boots history % 11
unfolding run boots handle_cmd handle_events
run-boot_counter beyond [] s e = omega (arith, e)
run-boot_counter beyond ((cmd_id, bytes) ∷ history) s e =
    ground (arith, run-boot_counter beyond history s e)

-- After any commands and notifications, a boot event is taken for a loss of the access point when it
-- is the eleventh, or a multiple of the eleventh, of the boots that came in a row, and for a boot
-- otherwise. Anything else that is not too short begins a new row.
pub handle_cmd-boots :
    (beyond : ℕ) (history : List (ℕ × List ℕ)) (bytes : List ℕ) (s : ApmSerializer)
    → s.boot_counter ≡ 0
    → events_size ≤ length bytes
    → has_boot bytes ≡ true
    → (handle_cmd beyond loc_notif_events bytes (run beyond history s)).1
      ≡ some (if suc (boots history) % 11 == 0 then ap_lost_notice else ap_boot_notice)
unfolding handle_cmd handle_events
handle_cmd-boots beyond history bytes s e long boot =
    rw (le→ltb-false _ _ long, boot) (ground (arith, run-boot_counter beyond history s e))
