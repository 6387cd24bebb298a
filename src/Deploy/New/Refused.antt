-- ===== src/Deploy/New/Refused.antt =====
-- When `createApp` of deploy/new.go ends with the status 2.
use thinkgo.Base.{◌≡◌, ◌⊎◌, Bool, true, false, Bytes, List, [], ◌∷◌, Option, join_path, split_at}
use thinkgo.Deploy.Confirm.{answer, Scanned, ask_for_confirmation}
use thinkgo.Deploy.New.{AllOutside, Created, created_in}

module _ (eval_symlinks : Bytes → Option Bytes) (exists : Bytes → Bool) (responses : List Scanned)
    (curpath : Bytes) where
  -- The directory of the application is there, and the answer is no.
  abbrev Kept : Bytes → Type 0
  Kept name =
      (exists (join_path (curpath ∷ name ∷ [])) ≡ true)
      × (ask_for_confirmation responses ≡ answer false)

  -- GOPATH is empty, or the working directory lies outside all its entries, or the directory is kept.
  abbrev pub RefusedNamed : Bytes → Bytes → Type 0
  RefusedNamed gopath name =
      (gopath ≡ []) ⊎ (AllOutside eval_symlinks curpath (split_at b':' gopath) ⊎ Kept name)

  abbrev pub Refused : Bytes → List Bytes → Type 0
  Refused gopath [] = Unit
  Refused gopath (name ∷ []) = RefusedNamed gopath name
  Refused gopath (name ∷ more ∷ names) = Unit

  abbrev created : Bytes → Bytes → Option Bytes → Created
  created gopath = created_in eval_symlinks exists responses gopath curpath
