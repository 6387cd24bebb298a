-- ===== src/Deploy/Watch/Quiet.antt =====
-- What goroutines of deploy/watch.go go by when they wake: the times that were stored in `scheduleTime`.
use thinkgo.Base.{
  ℕ, Bool-cases, inl, inr, ◌+◌, ◌<◌, ◌≤◌, ◌≡◌, refl, leb, Bytes, List, [], ◌∷◌, Option, none, some,
  get_elem?, arith,
}
use thinkgo.Deploy.Watch.{
  Routine, ready, asleep, Watch, Move, arm, doze, wake, begin, finish, Action, tick, event, act,
  step, advance, put, move, on_event, Reach, InOrder, look, second, spawned, timed, armed, building,
}
use thinkgo.Deploy.Watch.Invariants.{OnSome, Reach-keeps}

abbrev pub All : (ℕ → Type 0) → List ℕ → Type 0
All P [] = Unit
All P (t ∷ ts) = P t × All P ts

All-weaken : {P Q : ℕ → Type 0} → ((t : ℕ) → P t → Q t) → (ts : List ℕ) → All P ts → All Q ts
All-weaken f [] h = tt
All-weaken f (t ∷ ts) h = (f t h.0, All-weaken f ts h.1)

-- `scheduleTime` lies a second or more behind each time that was read for a value of it.
abbrev pub IsTimely : Watch → Type 0
IsTimely s = All (λ t. t + second ≤ s.schedule) s.set_times

move-IsTimely :
    (m : Move) (i : ℕ) (r : Routine) (s : Watch)
    → get_elem? s.routines i ≡ some r
    → InOrder (act m i) s
    → IsTimely s
    → OnSome IsTimely (put i (advance m r s))
unfolding advance
move-IsTimely look i spawned s e o c = c
move-IsTimely arm i (timed u) s e o c =
    let l = o u e in (omega arith, All-weaken (λ t h. omega (arith, h, l)) s.set_times c)
move-IsTimely doze i armed s e o c = c
move-IsTimely wake i (asleep u) s e o c = elim (Bool-cases (leb u s.now)) [
  | inl woken ↦ rw woken c
  | inr early ↦ rw early tt
]
move-IsTimely begin i ready s e o c = elim (Bool-cases s.locked) [
  | inl held ↦ rw held tt
  | inr free ↦ rw free c
]
move-IsTimely finish i building s e o c = c
move-IsTimely _ i _ s e o c = tt

act-IsTimely :
    (m : Move) (i : ℕ) (r : Option Routine) (s : Watch)
    → get_elem? s.routines i ≡ r
    → InOrder (act m i) s
    → IsTimely s
    → OnSome IsTimely (move m i r s)
act-IsTimely m i none s e o c = tt
act-IsTimely m i (some r) s e o c = move-IsTimely m i r s e o c

on_event_fields :
    (exts : List Bytes) (name : Bytes) (mt : ℕ) (s : Watch)
    → ((on_event exts name mt s).schedule ≡ s.schedule)
      × ((on_event exts name mt s).set_times ≡ s.set_times)
unfolding on_event
on_event_fields exts name mt s = ground arith

on_event-IsTimely :
    (exts : List Bytes) (name : Bytes) (mt : ℕ) (s : Watch)
    → IsTimely s
    → IsTimely (on_event exts name mt s)
on_event-IsTimely exts name mt s c = let (b, d) = on_event_fields exts name mt s in rw (b, d) c

step-IsTimely :
    (exts : List Bytes) (a : Action) (s : Watch)
    → InOrder a s
    → IsTimely s
    → OnSome IsTimely (step exts a s)
unfolding step
step-IsTimely exts (tick n) s o c = c
step-IsTimely exts (event name mt) s o c = on_event-IsTimely exts name mt s c
step-IsTimely exts (act m i) s o c = act-IsTimely m i (get_elem? s.routines i) s refl o c

pub Reach-IsTimely : (exts : List Bytes) (s : Watch) → Reach exts InOrder s → IsTimely s
Reach-IsTimely exts s r = Reach-keeps IsTimely (λ now. tt) (step-IsTimely exts) r

-- More than a second has gone by since each time that was read for a value of `scheduleTime`.
abbrev pub IsQuiet : Watch → Type 0
IsQuiet s = All (λ t. t + second < s.now) s.set_times
