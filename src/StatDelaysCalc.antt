-- ===== src/StatDelaysCalc.antt =====
-- common/StatDelays.h and common/StatDelaysCalc.h, StatDelaysCalc.cpp: events counted by their
-- delay. A delay is a number of microseconds that is not negative.
pub mod Counts
pub mod Examples
use apbridge.Prelude.{
  ℕ, ◌+◌, ◌^◌, ◌%◌, Bool, true, false, List, [], ◌∷◌, map, if◌then◌else◌, leb, ltb,
}

pub record NumThEvent : Type 0 where
  pub threshold : ℕ
  pub number : ℕ

pub record StatDelaysCalc : Type 0 where
  pub max_delay : ℕ
  pub thresholds : List NumThEvent
  pub num_out_thresholds : NumThEvent
  pub all_events : ℕ

pub record StatDelays : Type 0 where
  pub num_threshold_events : List NumThEvent
  pub num_out_threshold_events : NumThEvent
  pub num_events : ℕ
  pub stat_max_delay : ℕ

unfoldable pub clear_stat : StatDelaysCalc → StatDelaysCalc
clear_stat c = record c {
  max_delay = 0;
  all_events = 0;
  num_out_thresholds = record c.num_out_thresholds { number = 0 };
  thresholds = map (λ (e : NumThEvent). record e { number = 0 }) c.thresholds;
}

unfoldable pub back_of : ℕ → List ℕ → ℕ
back_of d [] = d
back_of d (d' ∷ ds) = back_of d' ds

-- The vector of delays is not empty: its last one is read.
unfoldable pub set_thresholds : ℕ → List ℕ → StatDelaysCalc → StatDelaysCalc
set_thresholds d ds c = record c {
  thresholds = map (λ (t : ℕ). record { threshold = t; number = 0 }) (d ∷ ds);
  num_out_thresholds = record { threshold = back_of d ds; number = 0 };
}

unfoldable pub default_stat : StatDelaysCalc → StatDelaysCalc
default_stat c = set_thresholds 5000 (7000 ∷ 10000 ∷ 50000 ∷ []) (clear_stat c)

unfoldable pub get_stat : StatDelaysCalc → StatDelays
get_stat c = record {
  num_threshold_events = c.thresholds;
  num_out_threshold_events = c.num_out_thresholds;
  num_events = c.all_events;
  stat_max_delay = c.max_delay;
}

unfoldable pub incremented : NumThEvent → NumThEvent
incremented e = record e { number = (e.number + 1) % 2 ^ 64 }

-- The loop of addEvent, and whether it counted the event.
unfoldable pub count_in : ℕ → List NumThEvent → List NumThEvent × Bool
count_in d [] = ([], false)
count_in d (e ∷ es) =
    let rest = count_in d es in
    if leb d e.threshold then (incremented e ∷ es, true) else (e ∷ rest.0, rest.1)

unfoldable pub add_event : ℕ → StatDelaysCalc → StatDelaysCalc
add_event d c =
    let r = count_in d c.thresholds in
    record c {
      thresholds = r.0;
      num_out_thresholds = if r.1 then c.num_out_thresholds else incremented c.num_out_thresholds;
      max_delay = if ltb c.max_delay d then d else c.max_delay;
      all_events = (c.all_events + 1) % 2 ^ 64;
    }

-- Events one after the other, the last one first in the list.
unfoldable pub add_events : List ℕ → StatDelaysCalc → StatDelaysCalc
add_events [] c = c
add_events (d ∷ ds) c = add_event d (add_events ds c)
