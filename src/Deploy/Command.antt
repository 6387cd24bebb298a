-- ===== src/Deploy/Command.antt =====
-- deploy/deploy.go: the commands of the tool and their choice. A command's `Run` and the arguments that its
-- flags leave are parameters; what is printed is left out.
use thinkgo.Base.{
  ℕ, ◌≡◌, ◌≢◌, refl, ◌∙◌, ◌==◌, ◌&&◌, Bool, true, false, if◌then◌else◌, Bytes, List, [], ◌∷◌, ◌++◌,
  Option, none, some, codes, equal, equal_iff, arith, Bool-cases, inl, inr,
}

-- `run` is none where the command is only a topic of the help; it gives the exit status.
pub record Command : Type 0 where
  pub usage_line : Bytes
  pub run : Option (List Bytes → ℕ)
  pub custom_flags : Bool
  pub flag_args : List Bytes → List Bytes

-- The text before the first space
unfoldable pub first_word : Bytes → Bytes
first_word [] = []
first_word (c ∷ s) = let rest = first_word s in if c == b' ' then [] else c ∷ rest

-- `Name`
abbrev pub name : Command → Bytes
name c = first_word c.usage_line

-- `Runnable`
abbrev pub runnable : Option (List Bytes → ℕ) → Bool
runnable none = false
runnable (some r) = true

-- How the tool ends: by a return, or with an exit status; the help of a command is printed before.
pub data Done : Type 0 where
  returned : Done
  helped : Bytes → Done
  exited : ℕ → Done

-- `help`: `usage` ends the process.
unfoldable pub help_for : List Command → Bytes → Done
unfolding first_word equal
help_for [] arg = exited 2
help_for (c ∷ cs) arg = if equal (name c) arg then helped (name c) else help_for cs arg

unfoldable pub help : List Command → List Bytes → Done
unfolding help_for
help cs [] = exited 2
help cs (arg ∷ []) = help_for cs arg
help cs (arg ∷ more ∷ args) = exited 2

abbrev pub args_of : Command → List Bytes → List Bytes
args_of c args = if c.custom_flags then args else c.flag_args args

abbrev pub run_status : Command → List Bytes → Option (List Bytes → ℕ) → Done
run_status c args none = exited 2
run_status c args (some run) = exited (run (args_of c args))

-- The loop over the commands
unfoldable pub dispatch : List Command → Bytes → List Bytes → Done
unfolding first_word equal
dispatch [] word args = exited 2
dispatch (c ∷ cs) word args =
    if equal (name c) word && runnable c.run then run_status c args c.run else dispatch cs word args

-- `Deploy`, behind the flags
unfoldable pub deploy : List Command → List Bytes → Done
unfolding help dispatch equal
deploy cs [] = exited 2
deploy cs (word ∷ args) = if equal word (codes "help") then help cs args else dispatch cs word args

-- A command that is chosen by a word: it has that name and can be run.
abbrev pub IsChosen : Bytes → Command → Type 0
IsChosen word c = (name c ≡ word) × (runnable c.run ≡ true)

abbrev pub NoneChosen : Bytes → List Command → Type 0
NoneChosen word [] = Unit
NoneChosen word (c ∷ cs) = ¬ IsChosen word c × NoneChosen word cs

dispatch_here :
    (after : List Command) (c : Command) (word : Bytes) (args : List Bytes) (run : List Bytes → ℕ)
    → name c ≡ word
    → c.run ≡ some run
    → dispatch (c ∷ after) word args ≡ exited (run (args_of c args))
unfolding dispatch
dispatch_here after c word args run e r =
    let named : equal (name c) word ≡ true = (equal_iff (name c) word).1 e in
    rw (named, dispatch) (rw (r, dispatch) refl)

dispatch_past :
    (cs : List Command) (c : Command) (word : Bytes) (args : List Bytes)
    → ¬ IsChosen word c
    → dispatch (c ∷ cs) word args ≡ dispatch cs word args
unfolding dispatch
dispatch_past cs c word args n = elim (Bool-cases (equal (name c) word && runnable c.run)) [
  | inr e ↦ rw e refl
  | inl e ↦ absurd (n ((equal_iff (name c) word).0 (ground (arith, e)), ground (arith, e)))
]

dispatch-append :
    (before cs : List Command) (word : Bytes) (args : List Bytes)
    → NoneChosen word before
    → dispatch (before ++ cs) word args ≡ dispatch cs word args
dispatch-append [] cs word args n = refl
dispatch-append (c ∷ before) cs word args n =
    dispatch_past (before ++ cs) c word args n.0 ∙ dispatch-append before cs word args n.1

-- A word that is not "help" runs the first command of that name that can be run, with the arguments behind
-- the word or those that its flags leave, and its status ends the process.
pub deploy-IsChosen :
    (before after : List Command) (c : Command) (word : Bytes) (args : List Bytes)
    (run : List Bytes → ℕ)
    → word ≢ codes "help"
    → NoneChosen word before
    → name c ≡ word
    → c.run ≡ some run
    → deploy (before ++ c ∷ after) (word ∷ args) ≡ exited (run (args_of c args))
unfolding deploy
deploy-IsChosen before after c word args run h n e r =
    let other : equal word (codes "help") ≡ false = ground (arith, equal_iff word (codes "help")) in
    rw other
      (dispatch-append before (c ∷ after) word args n ∙ dispatch_here after c word args run e r)
