-- ===== src/StatDelaysCalc/Counts.antt =====
-- What the counters of common/StatDelaysCalc.cpp say of the events.
use apbridge.Prelude.{
  ℕ, suc, ◌^◌, ◌≤◌, ◌<◌, ◌≡◌, refl, ◌∙◌, ◌&&◌, List, [], ◌∷◌, map, if◌then◌else◌, leb, ltb, length,
  arith, Bool-cases, inl, inr, if_both,
}
use apbridge.StatDelaysCalc.{
  NumThEvent, StatDelaysCalc, StatDelays, clear_stat, set_thresholds, get_stat, incremented,
  count_in, add_event, add_events,
}

-- The number of delays from a first to a last one.
unfoldable pub between : ℕ → ℕ → List ℕ → ℕ
between low high [] = 0
between low high (d ∷ ds) =
    let rest = between low high ds in if leb low d && leb d high then suc rest else rest

-- The number of delays from a first one on.
unfoldable pub from_on : ℕ → List ℕ → ℕ
from_on low [] = 0
from_on low (d ∷ ds) = let rest = from_on low ds in if leb low d then suc rest else rest

-- Each counter has the delays above the threshold before it up to its own, the last one the rest.
unfoldable pub Counted : ℕ → List NumThEvent → NumThEvent → List ℕ → Type 0
Counted low [] out ds = out.number ≡ from_on low ds
Counted low (e ∷ es) out ds =
    (e.number ≡ between low e.threshold ds) × Counted (suc e.threshold) es out ds

-- The thresholds do not descend.
unfoldable pub Ascending : ℕ → List ℕ → Type 0
Ascending t [] = Unit
Ascending t (t' ∷ ts) = (t ≤ t') × Ascending t' ts

unfoldable pub Sorted : ℕ → List NumThEvent → Type 0
Sorted low [] = Unit
Sorted low (e ∷ es) = (low ≤ suc e.threshold) × Sorted (suc e.threshold) es

between_le : (low high : ℕ) (ds : List ℕ) → between low high ds ≤ length ds
unfolding between
between_le low high [] = omega arith
between_le low high (d ∷ ds) = ground (arith, between_le low high ds)

from_on_le : (low : ℕ) (ds : List ℕ) → from_on low ds ≤ length ds
unfolding from_on
from_on_le low [] = omega arith
from_on_le low (d ∷ ds) = ground (arith, from_on_le low ds)

-- A delay below the first one is not counted.
below-Counted :
    (d low : ℕ) (es : List NumThEvent) (out : NumThEvent) (ds : List ℕ)
    → d < low
    → Sorted low es
    → Counted low es out ds
    → Counted low es out (d ∷ ds)
unfolding Counted Sorted between from_on
below-Counted d low [] out ds lt s c = ground (arith, lt, c)
below-Counted d low (e ∷ es) out ds lt s c = (
  ground (arith, lt, c.0),
  below-Counted d (suc e.threshold) es out ds (omega (arith, lt, s.0)) s.1 c.1,
)

count_in-Counted :
    (d low : ℕ) (es : List NumThEvent) (out : NumThEvent) (ds : List ℕ)
    → low ≤ d
    → Sorted low es
    → suc (length ds) < 2 ^ 64
    → Counted low es out ds
    → Counted low (count_in d es).0 (if (count_in d es).1 then out else incremented out) (d ∷ ds)
unfolding Counted Sorted count_in incremented between from_on
count_in-Counted d low [] out ds le s few c = ground (arith, le, c, from_on_le low ds, few)
count_in-Counted d low (e ∷ es) out ds le s few c = elim (Bool-cases (leb d e.threshold)) [
  | inl here ↦ rw here (
    ground (arith, le, here, c.0, between_le low e.threshold ds, few),
    below-Counted d (suc e.threshold) es out ds (ground (arith, here)) s.1 c.1,
  )
  | inr later ↦ rw later (
    ground (arith, later, c.0),
    count_in-Counted d (suc e.threshold) es out ds (ground (arith, later)) s.1 few c.1,
  )
]

abbrev pub limits : List NumThEvent → List ℕ
limits es = map (λ (e : NumThEvent). e.threshold) es

count_in-limits : (d : ℕ) (es : List NumThEvent) → limits (count_in d es).0 ≡ limits es
unfolding count_in incremented
count_in-limits d [] = refl
count_in-limits d (e ∷ es) = elim (Bool-cases (leb d e.threshold)) [
  | inl here ↦ rw here refl
  | inr later ↦ rw (later, count_in-limits d es) refl
]

count_in-Sorted : (d low : ℕ) (es : List NumThEvent) → Sorted low es → Sorted low (count_in d es).0
unfolding count_in incremented Sorted
count_in-Sorted d low [] s = s
count_in-Sorted d low (e ∷ es) s = elim (Bool-cases (leb d e.threshold)) [
  | inl here ↦ rw here s
  | inr later ↦ rw later (s.0, count_in-Sorted d (suc e.threshold) es s.1)
]

-- What the statistics say of the events, the thresholds they were set to given.
pub record Shows (ts ds : List ℕ) (s : StatDelays) : Type 0 where
  pub thresholds : limits s.num_threshold_events ≡ ts
  pub counts : Counted 0 s.num_threshold_events s.num_out_threshold_events ds
  pub all : s.num_events ≡ length ds
  pub none_longer : from_on (suc s.stat_max_delay) ds ≡ 0
  pub reached : 0 < s.stat_max_delay → 0 < between s.stat_max_delay s.stat_max_delay ds

from_on-zero : (a b : ℕ) (ds : List ℕ) → a ≤ b → from_on a ds ≡ 0 → from_on b ds ≡ 0
unfolding from_on
from_on-zero a b [] le z = refl
from_on-zero a b (d ∷ ds) le z = elim (Bool-cases (leb a d)) [
  | inl high ↦ ground (arith, z, high)
  | inr low ↦ ground (arith, z, low, le, from_on-zero a b ds le (ground (arith, z, low)))
]

none_longer-max :
    (d m : ℕ) (ds : List ℕ)
    → from_on (suc m) ds ≡ 0
    → from_on (suc (if ltb m d then d else m)) (d ∷ ds) ≡ 0
unfolding from_on
none_longer-max d m ds none =
    if_both (λ x. from_on (suc x) (d ∷ ds) ≡ 0) (ltb m d) d m
      (λ longer. ground (arith, from_on-zero (suc m) (suc d) ds (ground (arith, longer)) none))
      (λ no. ground (arith, no, none))

reached-max :
    (d m : ℕ) (ds : List ℕ)
    → (0 < m → 0 < between m m ds)
    → 0 < (if ltb m d then d else m)
    → 0 < between (if ltb m d then d else m) (if ltb m d then d else m) (d ∷ ds)
unfolding between
reached-max d m ds reached =
    if_both (λ x. 0 < x → 0 < between x x (d ∷ ds)) (ltb m d) d m (λ _ _. ground arith)
      (λ _ some. ground (arith, reached some))

record Kept (ts ds : List ℕ) (c : StatDelaysCalc) : Type 0 where
  sorted : Sorted 0 c.thresholds
  shows : Shows ts ds (get_stat c)

add_event-Kept :
    (d : ℕ) (ts ds : List ℕ) (c : StatDelaysCalc)
    → suc (length ds) < 2 ^ 64
    → Kept ts ds c
    → Kept ts (d ∷ ds) (add_event d c)
unfolding add_event get_stat between from_on
add_event-Kept d ts ds c few k = record {
  sorted = count_in-Sorted d 0 c.thresholds k.sorted;
  shows = record {
    thresholds = count_in-limits d c.thresholds ∙ k.shows.thresholds;
    counts =
        count_in-Counted d 0 c.thresholds c.num_out_thresholds ds (omega arith) k.sorted few
          k.shows.counts;
    all = ground (arith, k.shows.all, few);
    none_longer = none_longer-max d c.max_delay ds k.shows.none_longer;
    reached = reached-max d c.max_delay ds k.shows.reached;
  };
}

zero-Counted :
    (low : ℕ) (ts : List ℕ) (last : ℕ)
    → Counted low
        (map (λ (t : ℕ). record { threshold = t; number = 0 }) ts)
        (record { threshold = last; number = 0 })
        []
unfolding Counted between from_on
zero-Counted low [] last = refl
zero-Counted low (t ∷ ts) last = (refl, zero-Counted (suc t) ts last)

zero-Sorted :
    (low t : ℕ) (ts : List ℕ)
    → low ≤ suc t
    → Ascending t ts
    → Sorted low (map (λ (x : ℕ). record { threshold = x; number = 0 }) (t ∷ ts))
unfolding Sorted Ascending
zero-Sorted low t [] le a = (le, tt)
zero-Sorted low t (t' ∷ ts) le a = (le, zero-Sorted (suc t) t' ts (omega (arith, a.0)) a.1)

zero-limits : (ts : List ℕ) → limits (map (λ (t : ℕ). record { threshold = t; number = 0 }) ts) ≡ ts
zero-limits [] = refl
zero-limits (t ∷ ts) = rw (zero-limits ts) refl

set_thresholds-Kept :
    (t : ℕ) (ts : List ℕ) (c : StatDelaysCalc)
    → Ascending t ts
    → Kept (t ∷ ts) [] (set_thresholds t ts (clear_stat c))
unfolding set_thresholds clear_stat get_stat from_on
set_thresholds-Kept t ts c a = record {
  sorted = zero-Sorted 0 t ts (omega arith) a;
  shows = record {
    thresholds = zero-limits (t ∷ ts);
    counts = zero-Counted 0 (t ∷ ts) _;
    all = refl;
    none_longer = refl;
    reached = λ some. absurd (omega (arith, some));
  };
}

add_events-Kept :
    (t : ℕ) (ts ds : List ℕ) (c : StatDelaysCalc)
    → Ascending t ts
    → length ds < 2 ^ 64
    → Kept (t ∷ ts) ds (add_events ds (set_thresholds t ts (clear_stat c)))
unfolding add_events
add_events-Kept t ts [] c a few = set_thresholds-Kept t ts c a
add_events-Kept t ts (d ∷ ds) c a few =
    add_event-Kept d (t ∷ ts) ds _ few (add_events-Kept t ts ds c a (omega (arith, few)))

-- With ascending thresholds and less than 2^64 events the statistics after a clear are right: the
-- counter of a threshold has the events of a delay above the threshold before it and up to its
-- own, the last counter those above all thresholds, the total is the number of events, and the
-- greatest delay, if not 0, is that of an event, none being longer.
pub add_events-Shows :
    (t : ℕ) (ts ds : List ℕ) (c : StatDelaysCalc)
    → Ascending t ts
    → length ds < 2 ^ 64
    → Shows (t ∷ ts) ds (get_stat (add_events ds (set_thresholds t ts (clear_stat c))))
add_events-Shows t ts ds c a few = (add_events-Kept t ts ds c a few).shows
