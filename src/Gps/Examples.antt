-- ===== src/Gps/Examples.antt =====
-- Runs of APInterface/GPS.cpp.
use apbridge.Prelude.{◌≡◌, refl, true, [], ◌∷◌, arith}
use apbridge.ApCoupler.State.{gps_st_sync}
use apbridge.ApCoupler.Inputs.{is_sync}
use apbridge.Gps.{
  Gps, Place, got, open_round, read_round, read_answer, judge, update_used, update_visible,
  set_status, new_gps, begin, status_changed, visible_changed, used_changed,
}
use apbridge.Gps.Stable.{good, other, Reach, begun, opened, read, seen, is_stable, Reach-is_stable}

-- Four satellites at least, for ten seconds.
abbrev start : Gps
start = (begin (new_gps 4 10 1)).1

abbrev connected : Place × Gps
connected = open_round true (record start { now = 2 })

abbrev one_read : Place × Gps
one_read = read_round (got 5 9) (record connected.1 { now = 3 })

abbrev two_read : Place × Gps
two_read = read_round (got 4 9) (record one_read.1 { now = 13 })

two_read_reached : Reach 4 10 two_read.0 two_read.1 (good 13 ∷ good 3 ∷ other ∷ [])
unfolding new_gps begin open_round read_round read_answer judge update_used update_visible
    set_status seen
two_read_reached = read one_read.1 (good 3 ∷ other ∷ []) 13 (got 4 9) (omega arith) (omega arith) (
    read connected.1 (other ∷ []) 3 (got 5 9) (omega arith) (omega arith)
      (opened start [] 2 true (omega arith) (begun 1)))

-- What the coupler is told, the last first.
two_read_notices :
    two_read.1.notices
    ≡ status_changed gps_st_sync ∷ used_changed 4 ∷ used_changed 5 ∷ visible_changed 9 ∷ []
unfolding new_gps begin open_round read_round read_answer judge update_used update_visible
    set_status
two_read_notices = refl

Reach-is_stable_example :
    is_sync two_read.1.current_gps_status ≡ is_stable 10 (good 13 ∷ good 3 ∷ other ∷ [])
Reach-is_stable_example =
    Reach-is_stable 4 10 two_read.0 two_read.1 (good 13 ∷ good 3 ∷ other ∷ []) two_read_reached
