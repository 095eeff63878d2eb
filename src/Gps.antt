-- ===== src/Gps.antt =====
-- `CGPS` of APInterface/GPS.h and GPS.cpp: the thread that reads the records of gpsd, and decides when
-- the signal is stable. What gpsd answers comes with each round. The notified handler is the coupler,
-- which is set before the thread runs; a call of it is noted, the last one first. The log is left out.
pub mod Stable
pub mod Examples
use apbridge.Prelude.{
  ℕ, ◌-◌, Bool, true, false, not, ◌&&◌, List, [], ◌∷◌, Option, none, some, if◌then◌else◌, ltb, leb,
  ◌==◌,
}
use apbridge.ApCoupler.State.{
  GpsStatus, gps_st_no_device, gps_st_no_sync, gps_st_sync, gps_st_conn_lost,
}

-- The calls of `IGPSNotifHandler`.
pub data GpsNotice : Type 0 where
  status_changed : GpsStatus → GpsNotice
  used_changed visible_changed : ℕ → GpsNotice

-- `CGPS`, with the two parameters that the thread reads, the calls made and the clock in seconds. Of
-- the last record only counts whether there is one.
pub record Gps : Type 0 where
  pub min_satellites_in_use : ℕ
  pub max_time_to_stable : ℕ
  pub read_thread_running : Bool
  pub has_last_record : Bool
  pub current_gps_status : GpsStatus
  pub stable_start_time : ℕ
  pub satellites_used : ℕ
  pub satellites_visible : ℕ
  pub notices : List GpsNotice
  pub now : ℕ

-- The constructor, and the parameters of `start`.
unfoldable pub new_gps : ℕ → ℕ → ℕ → Gps
new_gps min_satellites max_time now = record {
  min_satellites_in_use = min_satellites;
  max_time_to_stable = max_time;
  read_thread_running = false;
  has_last_record = false;
  current_gps_status = gps_st_no_device;
  stable_start_time = 0;
  satellites_used = 0;
  satellites_visible = 0;
  notices = [];
  now = now;
}

abbrev pub notify : GpsNotice → Gps → Gps
notify n g = record g { notices = n ∷ g.notices }

abbrev pub same_status : GpsStatus → GpsStatus → Bool
same_status gps_st_no_device gps_st_no_device = true
same_status gps_st_no_sync gps_st_no_sync = true
same_status gps_st_sync gps_st_sync = true
same_status gps_st_conn_lost gps_st_conn_lost = true
same_status _ _ = false

abbrev pub start_time_after : GpsStatus → ℕ → ℕ
start_time_after gps_st_sync start = start
start_time_after _ start = 0

-- `setStatus`
unfoldable pub set_status : GpsStatus → Gps → Gps
set_status new_status g =
    let g1 = record g { stable_start_time = start_time_after new_status g.stable_start_time } in
    let g2 =
      if same_status g.current_gps_status new_status
      then g1
      else notify (status_changed new_status) g1 in
    record g2 { current_gps_status = new_status }

-- `setSatellitesVisible`, if the number is another.
unfoldable pub update_visible : ℕ → Gps → Gps
update_visible visible g =
    if g.satellites_visible == visible
    then g
    else notify (visible_changed visible) (record g { satellites_visible = visible })

-- `setSatellitesUsed`, if the number is another.
unfoldable pub update_used : ℕ → Gps → Gps
update_used used g =
    if g.satellites_used == used
    then g
    else notify (used_changed used) (record g { satellites_used = used })

-- What a record does to the status.
unfoldable pub judge : ℕ → Gps → Gps
judge used g =
    if leb g.min_satellites_in_use used
    then (if g.stable_start_time == 0
        then record g { stable_start_time = g.now }
        else if leb g.max_time_to_stable (g.now - g.stable_start_time)
        then set_status gps_st_sync g
        else g)
    else set_status gps_st_no_sync g

-- Where the thread is: about to open a connection to gpsd, reading from it, or at its end.
pub data Place : Type 0 where
  opening reading finished : Place

-- A round of the outer loop; `streams` is what gpsd answers to the request to watch.
unfoldable pub open_round : Bool → Gps → Place × Gps
open_round streams g =
    if not g.read_thread_running
    then (finished, g)
    else if streams
    then (reading, g)
    else (opening, set_status gps_st_no_device g)

-- What a wait for gpsd brings: nothing in time, an error, or a record with the numbers of satellites in
-- use and in sight.
pub data Answer : Type 0 where
  nothing failed : Answer
  got : ℕ → ℕ → Answer

unfoldable pub read_answer : Answer → Gps → Place × Gps
read_answer nothing g = (
  reading,
  if g.has_last_record
      then set_status gps_st_conn_lost (record g { has_last_record = false })
      else g,
)
read_answer failed g = (
  opening,
  record (set_status gps_st_conn_lost (record g { has_last_record = false })) {
    stable_start_time = 0;
  },
)
read_answer (got used visible) g = (
  reading,
  judge used (update_used used (update_visible visible (record g { has_last_record = true }))),
)

-- A round of the inner loop, and what follows on its end.
unfoldable pub read_round : Answer → Gps → Place × Gps
read_round a g =
    if g.read_thread_running
    then read_answer a g
    else (finished, record g { stable_start_time = 0 })

-- `start`, and the thread up to its loop.
unfoldable pub begin : Gps → Place × Gps
begin g = (opening, record g { read_thread_running = true })

-- `stop`, with the join left out.
unfoldable pub stop : Gps → Gps
stop g = record g { read_thread_running = false }
