-- ===== src/Deploy/Watch.antt =====
-- deploy/watch.go: `NewWatcher` with its goroutines, which share `scheduleTime` and the lock of `Autobuild`.
-- A schedule of the goroutines is a list of actions; times are in nanoseconds. What `getFileModTime`
-- gives comes with the event.
pub mod Invariants
pub mod Covered
pub mod Exclusive
pub mod Quiet
use thinkgo.Base.{
  ℕ, zero, suc, ◌+◌, ◌≤◌, ◌≡◌, ◌≢◌, ◌==◌, ltb, leb, not, Bool, true, false, if◌then◌else◌, Bytes,
  List, [], ◌∷◌, ◌++◌, Option, none, some, codes, get_elem?, to_lower, has_suffix, lookup, insert,
}

abbrev pub second : ℕ
second = 1000000000

-- What a goroutine that was started for an event does next: read the time, store it with a second more in
-- `scheduleTime`, read that for its sleep, wake at the time read, call `Autobuild`, or end.
pub data Routine : Type 0 where
  spawned armed ready building gone : Routine
  timed asleep : ℕ → Routine

-- `schedule` is `scheduleTime`. The last two fields are only spoken of: the times that were read for the
-- values stored in `scheduleTime`, and whether a change was accepted since the last build began.
pub record Watch : Type 0 where
  pub now : ℕ
  pub schedule : ℕ
  pub event_times : List (Bytes × ℕ)
  pub routines : List Routine
  pub locked : Bool
  pub set_times : List ℕ
  pub stale : Bool

-- Behind `NewWatcher`, the goroutine of `runApp` calls `Autobuild`.
abbrev pub new_watch : ℕ → Watch
new_watch now = record {
  now = now;
  schedule = 0;
  event_times = [];
  routines = ready ∷ [];
  locked = false;
  set_times = [];
  stale = false;
}

-- `checkTMPFile`
unfoldable pub check_tmp_file : Bytes → Bool
unfolding has_suffix to_lower
check_tmp_file name = has_suffix (to_lower name) (codes ".tmp")

-- `checkIfWatchExt`
unfoldable pub check_if_watch_ext : List Bytes → Bytes → Bool
unfolding has_suffix
check_if_watch_ext [] name = false
check_if_watch_ext (e ∷ es) name = if has_suffix name e then true else check_if_watch_ext es name

-- `eventTime[name]`, which is 0 for a name that is missing
abbrev pub or_zero : Option ℕ → ℕ
or_zero none = 0
or_zero (some t) = t

abbrev pub spawn : Watch → Watch
spawn s = record s { routines = s.routines ++ spawned ∷ []; stale = true }

-- The case `<-watcher.Event`
unfoldable pub on_event : List Bytes → Bytes → ℕ → Watch → Watch
unfolding check_tmp_file check_if_watch_ext lookup insert
on_event exts name mt s =
    if check_tmp_file name
    then s
    else if not (check_if_watch_ext exts name)
    then s
    else let s' = record s { event_times = insert name mt s.event_times } in
      if mt == or_zero (lookup name s.event_times) then s' else spawn s'

pub data Move : Type 0 where
  look arm doze wake begin finish : Move

pub data Action : Type 0 where
  tick : ℕ → Action
  event : Bytes → ℕ → Action
  act : Move → ℕ → Action

-- A move of a goroutine; `none` where it is not the next one. `time.Sleep` ends at the time read at the
-- earliest, and `begin` waits for the lock.
unfoldable pub advance : Move → Routine → Watch → Option (Routine × Watch)
advance look spawned s = some (timed s.now, s)
advance arm (timed t) s =
    some (armed, record s { schedule = t + second; set_times = t ∷ s.set_times })
advance doze armed s = some (asleep s.schedule, s)
advance wake (asleep until) s =
    if leb until s.now then some (if ltb s.schedule s.now then ready else gone, s) else none
advance begin ready s =
    if s.locked then none else some (building, record s { locked = true; stale = false })
advance finish building s = some (gone, record s { locked = false })
advance _ _ s = none

-- A write in range
abbrev pub set : List Routine → ℕ → Routine → List Routine
set [] i r = []
set (x ∷ xs) zero r = r ∷ xs
set (x ∷ xs) (suc i) r = x ∷ set xs i r

abbrev pub put : ℕ → Option (Routine × Watch) → Option Watch
put i none = none
put i (some (r, s)) = some (record s { routines = set s.routines i r })

abbrev pub move : Move → ℕ → Option Routine → Watch → Option Watch
move m i none s = none
move m i (some r) s = put i (advance m r s)

unfoldable pub step : List Bytes → Action → Watch → Option Watch
unfolding on_event advance
step exts (tick n) s = some (record s { now = s.now + n })
step exts (event name mt) s = some (on_event exts name mt s)
step exts (act m i) s = move m i (get_elem? s.routines i) s

-- The states that a watcher comes to by actions that meet a condition
pub data Reach (exts : List Bytes) (Allowed : Action → Watch → Type 0) : Watch → Type 0 where
  start : (now : ℕ) → Reach exts Allowed (new_watch now)
  next :
      {s t : Watch} (a : Action)
      → Reach exts Allowed s
      → Allowed a s
      → step exts a s ≡ some t
      → Reach exts Allowed t

abbrev pub Any : Action → Watch → Type 0
Any a s = Unit

-- No goroutine wakes at the very nanosecond for which a build is scheduled.
abbrev pub Late : Action → Watch → Type 0
Late (act wake i) s = s.now ≢ s.schedule
Late _ s = Unit

-- No goroutine stores a time that is older than the one stored already.
abbrev pub InOrder : Action → Watch → Type 0
InOrder (act arm i) s = (t : ℕ) → get_elem? s.routines i ≡ some (timed t) → s.schedule ≤ t + second
InOrder _ s = Unit
