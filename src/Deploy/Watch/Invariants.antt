-- ===== src/Deploy/Watch/Invariants.antt =====
-- Invariants of the goroutines of deploy/watch.go, and writes to the list of them.
use thinkgo.Base.{ℕ, ◌≡◌, Bytes, Option, none, some, subst, List}
use thinkgo.Deploy.Watch.{Watch, new_watch, Action, step, Reach, start, next}

-- What a step comes to, if it is taken.
abbrev pub OnSome : (Watch → Type 0) → Option Watch → Type 0
OnSome P none = Unit
OnSome P (some t) = P t

pub OnSome-eq : (P : Watch → Type 0) (o : Option Watch) {t : Watch} → o ≡ some t → OnSome P o → P t
OnSome-eq P none e h = cc
OnSome-eq P (some t') e h = subst P (cc) h

module _ {exts : List Bytes} {Allowed : Action → Watch → Type 0} (P : Watch → Type 0) where
  pub Reach-keeps :
      ((now : ℕ) → P (new_watch now))
      → ((a : Action) (s : Watch) → Allowed a s → P s → OnSome P (step exts a s))
      → {s : Watch} → Reach exts Allowed s
      → P s
  Reach-keeps new keep (start now) = new now
  Reach-keeps new keep (next {s = s} a r l e) =
      OnSome-eq P (step exts a s) e (keep a s l (Reach-keeps new keep r))
