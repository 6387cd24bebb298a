-- ===== src/Deploy/Watch/Covered.antt =====
-- The changes that wait for a build in deploy/watch.go, and the goroutines that will build them.
use mathlib.Core.Bool.{false≢true}
use thinkgo.Base.{
  Bool-cases, inl, inr, leb, ltb, ℕ, zero, suc, ◌≡◌, ◌≢◌, refl, ◌==◌, ◌||◌, Bool, true, false,
  Bytes, List, [], ◌∷◌, ◌++◌, Option, none, some, get_elem?, arith,
}
use thinkgo.Deploy.Watch.{
  Routine, spawned, timed, armed, ready, building, gone, asleep, Watch, Move, look, arm, doze, wake,
  begin, finish, Action, tick, event, act, step, advance, set, put, move, on_event, Reach, Late,
}
use thinkgo.Deploy.Watch.Invariants.{OnSome, Reach-keeps}

-- A goroutine that will build, if it is not overtaken: it has not slept yet, sleeps until the time that
-- is scheduled now, or waits for the lock.
abbrev pub will_build : ℕ → Routine → Bool
will_build n spawned = true
will_build n (timed t) = true
will_build n armed = true
will_build n ready = true
will_build n building = false
will_build n gone = false
will_build n (asleep until) = until == n

pub covers : ℕ → List Routine → Bool
covers n [] = false
covers n (r ∷ rs) = will_build n r || covers n rs

covers-append : (n : ℕ) (rs : List Routine) → covers n (rs ++ spawned ∷ []) ≡ true
unfolding covers
covers-append n [] = refl
covers-append n (r ∷ rs) = ground (arith, covers-append n rs)

covers-set :
    (n : ℕ) (rs : List Routine) (i : ℕ) (r r' : Routine)
    → get_elem? rs i ≡ some r
    → will_build n r' ≡ true
    → covers n (set rs i r') ≡ true
unfolding covers
covers-set n [] i r r' e h = cc
covers-set n (x ∷ rs) zero r r' e h = ground arith
covers-set n (x ∷ rs) (suc i) r r' e h = ground (arith, covers-set n rs i r r' e h)

covers-replace :
    (n : ℕ) (rs : List Routine) (i : ℕ) (r r' : Routine)
    → get_elem? rs i ≡ some r
    → will_build n r ≡ false
    → covers n rs ≡ true
    → covers n (set rs i r') ≡ true
unfolding covers
covers-replace n [] i r r' e h c = cc
covers-replace n (x ∷ rs) zero r r' e h c = let q : x ≡ r = cc in ground (arith, q)
covers-replace n (x ∷ rs) (suc i) r r' e h c = ground (arith, covers-replace n rs i r r' e h)

abbrev pub IsCovered : Watch → Type 0
IsCovered s = s.stale ≡ true → covers s.schedule s.routines ≡ true

wake-IsCovered :
    (i : ℕ) (until : ℕ) (s : Watch)
    → get_elem? s.routines i ≡ some (asleep until)
    → s.now ≢ s.schedule
    → IsCovered s
    → OnSome IsCovered (put i (advance wake (asleep until) s))
unfolding advance
wake-IsCovered i until s e l c = elim (Bool-cases (leb until s.now)) [
  | inr early ↦ rw early tt
  | inl woken ↦ elim (Bool-cases (ltb s.schedule s.now)) [
    | inl quiet ↦
        rw (woken, quiet) (λ _. covers-set s.schedule s.routines i (asleep until) ready e refl)
    | inr overtaken ↦
        rw (woken, overtaken)
          (λ x. covers-replace s.schedule s.routines i (asleep until) gone e (ground arith) (c x))
  ]
]

move-IsCovered :
    (m : Move) (i : ℕ) (r : Routine) (s : Watch)
    → get_elem? s.routines i ≡ some r
    → Late (act m i) s
    → IsCovered s
    → OnSome IsCovered (put i (advance m r s))
unfolding advance
move-IsCovered look i spawned s e l c =
    λ _. covers-set s.schedule s.routines i spawned (timed s.now) e refl
move-IsCovered arm i (timed t) s e l c = λ _. covers-set _ s.routines i (timed t) armed e refl
move-IsCovered doze i armed s e l c =
    λ _. covers-set s.schedule s.routines i armed (asleep s.schedule) e (ground arith)
move-IsCovered wake i (asleep u) s e l c = wake-IsCovered i u s e l c
move-IsCovered begin i ready s e l c = elim (Bool-cases s.locked) [
  | inl held ↦ rw held tt
  | inr free ↦ rw free (λ x. absurd (false≢true x))
]
move-IsCovered finish i building s e l c =
    λ x. covers-replace s.schedule s.routines i building gone e refl (c x)
move-IsCovered _ i _ s e l c = tt

act-IsCovered :
    (m : Move) (i : ℕ) (o : Option Routine) (s : Watch)
    → get_elem? s.routines i ≡ o
    → Late (act m i) s
    → IsCovered s
    → OnSome IsCovered (move m i o s)
act-IsCovered m i none s e l c = tt
act-IsCovered m i (some r) s e l c = move-IsCovered m i r s e l c

on_event-IsCovered :
    (exts : List Bytes) (name : Bytes) (mt : ℕ) (s : Watch)
    → IsCovered s
    → IsCovered (on_event exts name mt s)
unfolding on_event
on_event-IsCovered exts name mt s c = ground (arith, covers-append s.schedule s.routines)

step-IsCovered :
    (exts : List Bytes) (a : Action) (s : Watch)
    → Late a s
    → IsCovered s
    → OnSome IsCovered (step exts a s)
unfolding step
step-IsCovered exts (tick n) s l c = c
step-IsCovered exts (event name mt) s l c = on_event-IsCovered exts name mt s c
step-IsCovered exts (act m i) s l c = act-IsCovered m i (get_elem? s.routines i) s refl l c

-- No change is lost: where no goroutine wakes at the very time that is scheduled, a change that was
-- accepted and is not built yet always has a goroutine that will build.
pub Reach-IsCovered : (exts : List Bytes) (s : Watch) → Reach exts Late s → IsCovered s
Reach-IsCovered exts s r =
    Reach-keeps IsCovered (λ now x. absurd (false≢true x)) (step-IsCovered exts) r
