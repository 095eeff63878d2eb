-- ===== src/Gps/Stable.antt =====
-- When APInterface/GPS.cpp takes the signal for stable.
use apbridge.Prelude.{
  ℕ, ◌-◌, ◌<◌, ◌≤◌, ◌≡◌, ◌⊎◌, inl, inr, refl, ◌∙◌, sym, ap, subst, Bool-cases, Option-cases, Bool,
  true, false, List, [], ◌∷◌, Option, none, some, arith, if◌then◌else◌, leb, ◌==◌,
}
use apbridge.ApCoupler.State.{
  GpsStatus, gps_st_no_device, gps_st_no_sync, gps_st_sync, gps_st_conn_lost,
}
use apbridge.ApCoupler.Inputs.{is_sync}
use apbridge.Gps.{
  Gps, Place, opening, reading, Answer, nothing, failed, got, open_round, read_round, read_answer,
  judge, update_used, update_visible, set_status, new_gps, begin,
}

-- A record that is good enough, with its time, or anything else; the last one first.
pub data Seen : Type 0 where
  good : ℕ → Seen
  other : Seen

-- What a round has seen.
unfoldable pub seen : ℕ → ℕ → Answer → Seen
seen least now (got used visible) = if leb least used then good now else other
seen least now _ = other

-- When the run of good records began that has not ended.
unfoldable pub run_start : List Seen → Option ℕ
run_start [] = none
run_start (other ∷ history) = none
run_start (good now ∷ history) = elim (run_start history) [
  | none ↦ some now
  | some start ↦ some start
]

-- The last record is good, and so was each since one at least `time` seconds before it.
unfoldable pub is_stable : ℕ → List Seen → Bool
is_stable time [] = false
is_stable time (other ∷ history) = false
is_stable time (good now ∷ history) = elim (run_start history) [
  | none ↦ false
  | some start ↦ leb time (now - start)
]

-- What the rounds of the thread lead to, as time passes.
pub data Reach (least time : ℕ) : Place → Gps → List Seen → Type 0 where
  begun : (now : ℕ) → Reach least time opening (begin (new_gps least time now)).1 []
  opened :
      (g : Gps) (history : List Seen) (now : ℕ) (streams : Bool)
      → g.now ≤ now
      → Reach least time opening g history
      → Reach least time
          (open_round streams (record g { now = now })).0
          (open_round streams (record g { now = now })).1
          (other ∷ history)
  read :
      (g : Gps) (history : List Seen) (now : ℕ) (a : Answer)
      → 0 < now
      → g.now ≤ now
      → Reach least time reading g history
      → Reach least time
          (read_round a (record g { now = now })).0
          (read_round a (record g { now = now })).1
          (seen least now a ∷ history)

-- The time at which the run of good records began, or 0.
abbrev start_of : Option ℕ → ℕ
start_of none = 0
start_of (some start) = start

abbrev is_opening : Place → Bool
is_opening opening = true
is_opening _ = false

record Inv (least time : ℕ) (p : Place) (g : Gps) (history : List Seen) : Type 0 where
  least_kept : g.min_satellites_in_use ≡ least
  time_kept : g.max_time_to_stable ≡ time
  running : g.read_thread_running ≡ true
  start : g.stable_start_time ≡ start_of (run_start history)
  past : start_of (run_start history) ≤ g.now
  real : (run_start history ≡ none) ⊎ (0 < start_of (run_start history))
  status : is_sync g.current_gps_status ≡ is_stable time history
  lasting : is_stable time history ≡ true → time ≤ g.now - start_of (run_start history)
  unread : g.has_last_record ≡ false → run_start history ≡ none
  unopened : is_opening p ≡ true → run_start history ≡ none

begun-Inv : (least time now : ℕ) → Inv least time opening (begin (new_gps least time now)).1 []
unfolding begin new_gps run_start is_stable
begun-Inv least time now = ground arith

-- Nothing is left of a run: the status is not sync, and no start is noted.
reset-Inv :
    (least time : ℕ) (p : Place) (g : Gps) (history : List Seen)
    → g.min_satellites_in_use ≡ least
    → g.max_time_to_stable ≡ time
    → g.read_thread_running ≡ true
    → g.stable_start_time ≡ 0
    → is_sync g.current_gps_status ≡ false
    → Inv least time p g (other ∷ history)
unfolding run_start is_stable
reset-Inv least time p g history a b c d e = record {
  least_kept = a;
  time_kept = b;
  running = c;
  start = d;
  past = omega arith;
  real = inl refl;
  status = e;
  lasting = λ p. absurd (ground (arith, p));
  unread = λ _. refl;
  unopened = λ _. refl;
}

is_stable-none :
    (time : ℕ) (history : List Seen) → run_start history ≡ none → is_stable time history ≡ false
unfolding run_start is_stable
is_stable-none time [] e = refl
is_stable-none time (other ∷ history) e = refl
is_stable-none time (good now ∷ history) e = ground (arith, e)

-- A status other than sync leaves no start, and the parameters as they were.
set_status-Inv :
    (s : GpsStatus) (least time : ℕ) (p : Place) (g : Gps) (history : List Seen)
    → is_sync s ≡ false
    → g.min_satellites_in_use ≡ least
    → g.max_time_to_stable ≡ time
    → g.read_thread_running ≡ true
    → Inv least time p (set_status s g) (other ∷ history)
unfolding set_status
set_status-Inv s least time p g history quiet a b c =
    reset-Inv least time p _ history (ground (arith, a)) (ground (arith, b)) (ground (arith, c))
      (ground (arith, quiet)) (ground (arith, quiet))

opened-Inv :
    (least time : ℕ) (g : Gps) (history : List Seen) (now : ℕ) (streams : Bool)
    → Inv least time opening g history
    → Inv least time
        (open_round streams (record g { now = now })).0
        (open_round streams (record g { now = now })).1
        (other ∷ history)
unfolding open_round
opened-Inv least time g history now true v = rw v.running (
    reset-Inv least time reading (record g { read_thread_running = true; now = now }) history
      v.least_kept v.time_kept refl (v.start ∙ ap start_of (v.unopened refl))
      (v.status ∙ is_stable-none time history (v.unopened refl)))
opened-Inv least time g history now false v = rw v.running (
    set_status-Inv gps_st_no_device least time opening
      (record g { read_thread_running = true; now = now }) history refl v.least_kept v.time_kept
      refl)

-- Only the numbers of satellites and the calls are others.
record Updated (g g' : Gps) : Type 0 where
  least_same : g'.min_satellites_in_use ≡ g.min_satellites_in_use
  time_same : g'.max_time_to_stable ≡ g.max_time_to_stable
  running_same : g'.read_thread_running ≡ g.read_thread_running
  start_same : g'.stable_start_time ≡ g.stable_start_time
  now_same : g'.now ≡ g.now
  status_same : g'.current_gps_status ≡ g.current_gps_status
  read_same : g'.has_last_record ≡ g.has_last_record

update-Updated :
    (used visible : ℕ) (g : Gps) → Updated g (update_used used (update_visible visible g))
unfolding update_used update_visible
update-Updated used visible g = ground arith

run_start-first : (t : ℕ) (h : List Seen) → run_start h ≡ none → run_start (good t ∷ h) ≡ some t
unfolding run_start
run_start-first t h e = ground (arith, e)

run_start-next : (t s : ℕ) (h : List Seen) → run_start h ≡ some s → run_start (good t ∷ h) ≡ some s
unfolding run_start
run_start-next t s h e = ground (arith, e)

is_stable-first :
    (time t : ℕ) (h : List Seen) → run_start h ≡ none → is_stable time (good t ∷ h) ≡ false
unfolding is_stable
is_stable-first time t h e = ground (arith, e)

is_stable-next :
    (time t s : ℕ) (h : List Seen)
    → run_start h ≡ some s
    → is_stable time (good t ∷ h) ≡ leb time (t - s)
unfolding is_stable
is_stable-next time t s h e = ground (arith, e)

-- The first good record of a run.
first-Inv :
    (least time : ℕ) (g : Gps) (history : List Seen)
    → 0 < g.now
    → Inv least time reading g history
    → g.has_last_record ≡ true
    → run_start history ≡ none
    → Inv least time reading (record g { stable_start_time = g.now }) (good g.now ∷ history)
first-Inv least time g history real v has e = record {
  least_kept = v.least_kept;
  time_kept = v.time_kept;
  running = v.running;
  start = rw (run_start-first g.now history e) refl;
  past = rw (run_start-first g.now history e) (omega arith);
  real = rw (run_start-first g.now history e) (inr real);
  status = v.status ∙ is_stable-none time history e ∙ sym (is_stable-first time g.now history e);
  lasting = λ p. absurd (ground (arith, p, is_stable-first time g.now history e));
  unread = λ p. absurd (ground (arith, p, has));
  unopened = λ p. absurd (ground (arith, p));
}

-- A good record in a run that began at `s`.
next-Inv :
    (least time s : ℕ) (g : Gps) (history : List Seen)
    → Inv least time reading g history
    → g.has_last_record ≡ true
    → run_start history ≡ some s
    → Inv least time reading
        (if leb time (g.now - s) then set_status gps_st_sync g else g)
        (good g.now ∷ history)
unfolding set_status
next-Inv least time s g history v has e = record {
  least_kept = ground (arith, v.least_kept);
  time_kept = ground (arith, v.time_kept);
  running = ground (arith, v.running);
  start = rw (run_start-next g.now s history e) (ground (arith, v.start, e));
  past = rw (run_start-next g.now s history e) (ground (arith, v.past, e));
  real = rw (run_start-next g.now s history e) (ground (arith, v.real, e));
  status = rw (is_stable-next time g.now s history e) (ground (arith, v.status, v.lasting, e));
  lasting =
      rw (is_stable-next time g.now s history e, run_start-next g.now s history e)
        (λ p. ground (arith, p));
  unread = λ p. absurd (ground (arith, p, has));
  unopened = λ p. absurd (ground (arith, p));
}

bad-Inv :
    (least time used : ℕ) (g : Gps) (history : List Seen)
    → Inv least time reading g history
    → leb least used ≡ false
    → Inv least time reading (judge used g) (other ∷ history)
unfolding judge
bad-Inv least time used g history v few =
    rw (v.least_kept, few)
      (set_status-Inv gps_st_no_sync least time reading (record g { min_satellites_in_use = least })
        history refl refl v.time_kept v.running)

judge-first :
    (used : ℕ) (g : Gps)
    → leb g.min_satellites_in_use used ≡ true
    → g.stable_start_time ≡ 0
    → judge used g ≡ record g { stable_start_time = g.now }
unfolding judge
judge-first used g enough fresh = rw (enough, fresh) refl

judge-next :
    (used time s : ℕ) (g : Gps)
    → leb g.min_satellites_in_use used ≡ true
    → g.max_time_to_stable ≡ time
    → g.stable_start_time ≡ s
    → (s == 0) ≡ false
    → judge used g ≡ (if leb time (g.now - s) then set_status gps_st_sync g else g)
unfolding judge
judge-next used time s g enough kept from real = rw (enough, kept, from, real) refl

good-Inv :
    (least time used : ℕ) (g : Gps) (history : List Seen)
    → 0 < g.now
    → Inv least time reading g history
    → g.has_last_record ≡ true
    → leb least used ≡ true
    → Inv least time reading (judge used g) (good g.now ∷ history)
good-Inv least time used g history real v has enough = elim (Option-cases (run_start history)) [
  | inl e ↦
      rw (judge-first used g (rw v.least_kept enough) (v.start ∙ ap start_of e))
        (first-Inv least time g history real v has e)
  | inr (s, e) ↦
      rw
        (judge-next used time s g (rw v.least_kept enough) v.time_kept (v.start ∙ ap start_of e)
          (ground (arith, v.real, e)))
        (next-Inv least time s g history v has e)
]

judge-Inv :
    (least time used : ℕ) (g : Gps) (history : List Seen)
    → 0 < g.now
    → Inv least time reading g history
    → g.has_last_record ≡ true
    → Inv least time reading
        (judge used g)
        ((if leb least used then good g.now else other) ∷ history)
judge-Inv least time used g history real v has = elim (Bool-cases (leb least used)) [
  | inl enough ↦ rw enough (good-Inv least time used g history real v has enough)
  | inr few ↦ rw few (bad-Inv least time used g history v few)
]

-- The clock has gone on, and only the numbers of satellites and the calls are others.
carried-Inv :
    (least time now : ℕ) (g g' : Gps) (history : List Seen)
    → g.now ≤ now
    → Updated (record g { read_thread_running = true; has_last_record = true; now = now }) g'
    → Inv least time reading g history
    → Inv least time reading g' history
carried-Inv least time now g g' history later u v = record {
  least_kept = u.least_same ∙ v.least_kept;
  time_kept = u.time_same ∙ v.time_kept;
  running = u.running_same;
  start = u.start_same ∙ v.start;
  past = rw u.now_same (omega (arith, v.past, later));
  real = v.real;
  status = ap is_sync u.status_same ∙ v.status;
  lasting = λ p. rw u.now_same (omega (arith, v.lasting p, later));
  unread = λ p. absurd (ground (arith, p, u.read_same));
  unopened = λ p. absurd (ground (arith, p));
}

read-Inv :
    (least time : ℕ) (g : Gps) (history : List Seen) (now : ℕ) (a : Answer)
    → 0 < now
    → g.now ≤ now
    → Inv least time reading g history
    → Inv least time
        (read_round a (record g { now = now })).0
        (read_round a (record g { now = now })).1
        (seen least now a ∷ history)
unfolding read_round read_answer seen is_stable
read-Inv least time g history now nothing real later v = elim (Bool-cases g.has_last_record) [
  | inl has ↦
      rw (v.running, has)
        (set_status-Inv gps_st_conn_lost least time reading
          (record g { read_thread_running = true; has_last_record = false; now = now }) history refl
          v.least_kept v.time_kept refl)
  | inr none_read ↦
      rw (v.running, none_read)
        (reset-Inv least time reading
          (record g { read_thread_running = true; has_last_record = false; now = now }) history
          v.least_kept v.time_kept refl (v.start ∙ ap start_of (v.unread none_read))
          (v.status ∙ is_stable-none time history (v.unread none_read)))
]
read-Inv least time g history now failed real later v =
    let lost =
      set_status-Inv gps_st_conn_lost least time opening
        (record g { read_thread_running = true; has_last_record = false; now = now }) history refl
        v.least_kept v.time_kept refl in
    rw v.running (
      reset-Inv least time opening _ history lost.least_kept lost.time_kept lost.running refl
        lost.status)
read-Inv least time g history now (got used visible) real later v =
    let g1 = record g { read_thread_running = true; has_last_record = true; now = now } in
    let g2 = update_used used (update_visible visible g1) in
    let u = update-Updated used visible g1 in
    rw v.running (
      subst
        (λ (n : ℕ).
          Inv least time reading (judge used g2)
            ((if leb least used then good n else other) ∷ history))
        u.now_same
        (judge-Inv least time used g2 history (rw u.now_same real)
          (carried-Inv least time now g g2 history later u v) u.read_same))

-- The place of a thread that runs is never its end.
Reach-Inv :
    (least time : ℕ) (p : Place) (g : Gps) (history : List Seen)
    → Reach least time p g history
    → Inv least time p g history
Reach-Inv least time _ _ _ (begun now) = begun-Inv least time now
Reach-Inv least time _ _ _ (opened g history now streams later r) =
    opened-Inv least time g history now streams (Reach-Inv least time opening g history r)
Reach-Inv least time _ _ _ (read g history now a real later r) =
    read-Inv least time g history now a real later (Reach-Inv least time reading g history r)

-- After any connections to gpsd and any answers of it, at times that are not 0 and do not go back, while
-- the thread is not stopped: the status is that of a synchronised signal if and only if the last
-- record had enough satellites, and so had every record since one that is at least the configured
-- time older, with nothing in between that ended the run.
pub Reach-is_stable :
    (least time : ℕ) (p : Place) (g : Gps) (history : List Seen)
    → Reach least time p g history
    → is_sync g.current_gps_status ≡ is_stable time history
Reach-is_stable least time p g history r = (Reach-Inv least time p g history r).status
