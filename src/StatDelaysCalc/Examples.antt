-- ===== src/StatDelaysCalc/Examples.antt =====
-- The counters of common/StatDelaysCalc.cpp at five events, with the default thresholds.
use apbridge.Prelude.{ℕ, ◌≡◌, refl, List, [], ◌∷◌, map, arith}
use apbridge.StatDelaysCalc.{
  StatDelaysCalc, NumThEvent, default_stat, get_stat, add_events, add_event, count_in, incremented,
  set_thresholds, clear_stat,
}
use apbridge.StatDelaysCalc.Counts.{Shows, Ascending, add_events-Shows}

abbrev blank : StatDelaysCalc
blank = record {
  max_delay = 3;
  thresholds = [];
  num_out_thresholds = record { threshold = 1; number = 4 };
  all_events = 9;
}

abbrev delays : List ℕ
delays = 5000 ∷ 60000 ∷ 5001 ∷ 0 ∷ 50000 ∷ []

counters :
    map (λ (e : NumThEvent). e.number) (add_events delays (default_stat blank)).thresholds
    ≡ 2 ∷ 1 ∷ 0 ∷ 1 ∷ []
unfolding add_events add_event count_in incremented default_stat set_thresholds clear_stat
counters = refl

add_events-Shows_example :
    Shows
      (5000 ∷ 7000 ∷ 10000 ∷ 50000 ∷ [])
      delays
      (get_stat (add_events delays (default_stat blank)))
unfolding default_stat Ascending
add_events-Shows_example =
    add_events-Shows 5000 (7000 ∷ 10000 ∷ 50000 ∷ []) delays blank
      (omega arith, (omega arith, (omega arith, tt))) (omega arith)
