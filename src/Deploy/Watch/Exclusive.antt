-- ===== src/Deploy/Watch/Exclusive.antt =====
-- The lock of `Autobuild` in deploy/watch.go, and the goroutines that build.
use thinkgo.Base.{
  ℕ, zero, suc, ◌+◌, ◌≡◌, ◌≤◌, refl, Bool-cases, inl, inr, leb, ltb, Bool, true, false, Bytes, List,
  [], ◌∷◌, ◌++◌, Option, none, some, get_elem?, arith,
}
use thinkgo.Deploy.Watch.{
  Routine, spawned, timed, armed, ready, building, gone, asleep, Watch, Move, look, arm, doze, wake,
  begin, finish, Action, tick, event, act, step, advance, set, put, move, on_event, Reach, Any,
}
use thinkgo.Deploy.Watch.Invariants.{OnSome, Reach-keeps}

abbrev pub one_if_building : Routine → ℕ
one_if_building building = 1
one_if_building _ = 0

-- How many goroutines are in `Autobuild`
pub builders : List Routine → ℕ
builders [] = 0
builders (r ∷ rs) = one_if_building r + builders rs

builders-append : (rs : List Routine) → builders (rs ++ spawned ∷ []) ≡ builders rs
unfolding builders
builders-append [] = refl
builders-append (r ∷ rs) = omega (arith, builders-append rs)

builders-set :
    (rs : List Routine) (i : ℕ) (r r' : Routine)
    → get_elem? rs i ≡ some r
    → builders (set rs i r') + one_if_building r ≡ builders rs + one_if_building r'
unfolding builders
builders-set [] i r r' e = cc
builders-set (x ∷ rs) zero r r' e = let q : x ≡ r = cc in rw q (omega arith)
builders-set (x ∷ rs) (suc i) r r' e = omega (arith, builders-set rs i r r' e)

abbrev pub lock_count : Bool → ℕ
lock_count true = 1
lock_count false = 0

lock_count-le-one : (b : Bool) → lock_count b ≤ 1
lock_count-le-one true = omega arith
lock_count-le-one false = omega arith

abbrev pub IsExclusive : Watch → Type 0
IsExclusive s = builders s.routines ≡ lock_count s.locked

move-IsExclusive :
    (m : Move) (i : ℕ) (r : Routine) (s : Watch)
    → get_elem? s.routines i ≡ some r
    → IsExclusive s
    → OnSome IsExclusive (put i (advance m r s))
unfolding advance
move-IsExclusive look i spawned s e c =
    omega (arith, builders-set s.routines i spawned (timed s.now) e)
move-IsExclusive arm i (timed t) s e c = omega (arith, builders-set s.routines i (timed t) armed e)
move-IsExclusive doze i armed s e c =
    omega (arith, builders-set s.routines i armed (asleep s.schedule) e)
move-IsExclusive wake i (asleep u) s e c = elim (Bool-cases (leb u s.now)) [
  | inr early ↦ rw early tt
  | inl woken ↦ elim (Bool-cases (ltb s.schedule s.now)) [
    | inl quiet ↦ rw (woken, quiet) (omega (arith, builders-set s.routines i (asleep u) ready e))
    | inr overtaken ↦
        rw (woken, overtaken) (omega (arith, builders-set s.routines i (asleep u) gone e))
  ]
]
move-IsExclusive begin i ready s e c = elim (Bool-cases s.locked) [
  | inl held ↦ rw held tt
  | inr free ↦ rw free (ground (arith, builders-set s.routines i ready building e))
]
move-IsExclusive finish i building s e c =
    omega (arith, builders-set s.routines i building gone e, lock_count-le-one s.locked)
move-IsExclusive _ i _ s e c = tt

act-IsExclusive :
    (m : Move) (i : ℕ) (o : Option Routine) (s : Watch)
    → get_elem? s.routines i ≡ o
    → IsExclusive s
    → OnSome IsExclusive (move m i o s)
act-IsExclusive m i none s e c = tt
act-IsExclusive m i (some r) s e c = move-IsExclusive m i r s e c

on_event-IsExclusive :
    (exts : List Bytes) (name : Bytes) (mt : ℕ) (s : Watch)
    → IsExclusive s
    → IsExclusive (on_event exts name mt s)
unfolding on_event
on_event-IsExclusive exts name mt s c = ground (arith, builders-append s.routines)

step-IsExclusive :
    (exts : List Bytes) (a : Action) (s : Watch)
    → IsExclusive s
    → OnSome IsExclusive (step exts a s)
unfolding step
step-IsExclusive exts (tick n) s c = c
step-IsExclusive exts (event name mt) s c = on_event-IsExclusive exts name mt s c
step-IsExclusive exts (act m i) s c = act-IsExclusive m i (get_elem? s.routines i) s refl c

-- In every order of the moves of the goroutines, one at most is building, and one is exactly while the
-- lock is held.
pub Reach-IsExclusive : (exts : List Bytes) (s : Watch) → Reach exts Any s → IsExclusive s
unfolding builders
Reach-IsExclusive exts s r =
    Reach-keeps IsExclusive (λ now. refl) (λ a t _ c. step-IsExclusive exts a t c) r
