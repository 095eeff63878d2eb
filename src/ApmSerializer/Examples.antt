-- ===== src/ApmSerializer/Examples.antt =====
-- Runs of `handleCmd` of APInterface/APMSerializer.cpp.
use apbridge.Prelude.{ℕ, ◌<◌, ◌≡◌, refl, arith, List, [], ◌∷◌, some, none}
use apbridge.ApmSerializer.{
  ApmSerializer, handle_cmd, handle_other, buffer_cast, ap_lost_notice, loc_notif_events,
  loc_notif_txdone, tx_done,
}
use apbridge.ApmSerializer.Boots.{run, boots, handle_cmd-boots}
use apbridge.ApmSerializer.Sizes.{Fits, handle_cmd-Fits}

abbrev fresh : ApmSerializer
fresh = record { boot_counter = 0 }

abbrev boot_event : List ℕ
boot_event = 0 ∷ 0 ∷ 0 ∷ 1 ∷ 1 ∷ 0 ∷ 0 ∷ 0 ∷ 0 ∷ []

abbrev boot : ℕ × List ℕ
boot = (loc_notif_events, boot_event)

abbrev ten_boots : List (ℕ × List ℕ)
ten_boots = boot ∷ boot ∷ boot ∷ boot ∷ boot ∷ boot ∷ boot ∷ boot ∷ boot ∷ boot ∷ []

handle_cmd-boots_example :
    (handle_cmd 0 loc_notif_events boot_event (run 0 ten_boots fresh)).1 ≡ some ap_lost_notice
unfolding boots
handle_cmd-boots_example = handle_cmd-boots 0 ten_boots boot_event fresh refl (omega arith) refl

abbrev done_bytes : List ℕ
done_bytes = 1 ∷ 2 ∷ 0 ∷ []

tx_done_run : (handle_cmd 0 loc_notif_txdone done_bytes fresh).1 ≡ some (tx_done 258 0)
unfolding handle_cmd handle_other buffer_cast
tx_done_run = refl

too_short_run : (handle_cmd 0 loc_notif_txdone (1 ∷ []) fresh).1 ≡ none
unfolding handle_cmd handle_other buffer_cast
too_short_run = refl

handle_cmd-Fits_example :
    Fits done_bytes (handle_cmd 0 loc_notif_txdone done_bytes fresh).1
    × ((handle_cmd 0 loc_notif_txdone done_bytes fresh).2.boot_counter < 11)
handle_cmd-Fits_example = handle_cmd-Fits 0 loc_notif_txdone done_bytes fresh (omega arith)
