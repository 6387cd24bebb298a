-- ===== src/Deploy/Run.antt =====
-- deploy/run.go: `runApp`, up to the loop in which it waits. The working directory, the file system, what the
-- user types and what `loadConfig` left in `conf` are arguments.
use thinkgo.Base.{
  Bool-cases, inl, inr, ◌≢◌, ℕ, zero, suc, ◌≡◌, refl, Bool, true, false, ◌&&◌, ◌-◌, if◌then◌else◌,
  Bytes, List, [], ◌∷◌, ◌++◌, codes, equal, has_prefix, has_suffix, join_path, length, count, arith,
}
use thinkgo.Modules.Module.{base}
use thinkgo.Deploy.Dirs.{Node, read_app_directories}
use thinkgo.Deploy.Confirm.{Scanned, Answer, answer, fatal, waiting, ask_for_confirmation}

-- `strings.Replace` for all places of `old`, which is not empty; `skip` bytes belong to a place that was
-- replaced.
unfoldable pub replace_from : Bytes → Bytes → ℕ → Bytes → Bytes
unfolding has_prefix
replace_from old new skip [] = []
replace_from old new (suc skip) (c ∷ s) = replace_from old new skip s
replace_from old new zero (c ∷ s) =
    let put = new ++ replace_from old new (length old - 1) s in
    let on = c ∷ replace_from old new zero s in if has_prefix (c ∷ s) old then put else on

abbrev pub gopath_variable : Bytes
gopath_variable = codes "$GOPATH"

-- The variable `appname`
unfoldable pub app_name : Bytes → List Bytes → Bytes
unfolding base equal
app_name here [] = base here
app_name here (a ∷ args) = if equal a (codes "watchall") then base here else a

-- Whether the user is asked for a confirmation
unfoldable pub is_asked : (Bytes → Bool) → Bytes → List Bytes → Bool
unfolding equal has_suffix join_path
is_asked exists here [] = false
is_asked exists here (a ∷ args) =
    if equal a (codes "watchall")
    then false
    else has_suffix a (codes ".go") && exists (join_path (here ∷ a ∷ []))

-- The loop over `conf.DirStruct.Others`
unfoldable pub other_paths : Bytes → List Bytes → List Bytes
unfolding replace_from
other_paths gopath [] = []
other_paths gopath (p ∷ ps) = replace_from gopath_variable gopath zero p ∷ other_paths gopath ps

-- The loop over `mainFiles`
unfoldable pub main_files : List Bytes → List Bytes
main_files [] = []
main_files ([] ∷ files) = main_files files
main_files ((c ∷ s) ∷ files) = (c ∷ s) ∷ main_files files

-- How `runApp` goes on: it returns 0, the process ends, it waits for the user, or it watches the paths and
-- builds the files, with documentation or not, for ever.
pub data Going : Type 0 where
  declined ended asking : Going
  supervises : Bytes → List Bytes → List Bytes → Bool → Going

abbrev pub answered : Answer → Going → Going
answered (answer true) on = on
answered (answer false) on = declined
answered fatal on = ended
answered waiting on = asking

-- What follows the confirmation, by `GetGOPATHs`
abbrev pub watching : List Bytes → Bytes → List Bytes → List Bytes → List Bytes → Bytes → Going
watching [] name dirs others files gendoc = ended
watching (gopath ∷ _) name dirs others files gendoc =
    supervises name (dirs ++ other_paths gopath others) (main_files files)
      (equal gendoc (codes "true"))

-- `runApp`, without the lines that it logs
unfoldable pub run_app :
    (Bytes → Bool)
    → List Scanned
    → Bytes
    → List Bytes
    → List Bytes
    → Node
    → List Bytes
    → List Bytes
    → List Bytes
    → Bytes
    → Going
unfolding app_name is_asked ask_for_confirmation read_app_directories other_paths main_files equal
run_app exists typed here args excluded tree others gopaths files gendoc =
    let on =
      watching gopaths (app_name here args) (read_app_directories excluded here tree) others files
        gendoc in
    if is_asked exists here args then answered (ask_for_confirmation typed) on else on

watching-ne :
    (gopaths : List Bytes) (name : Bytes) (dirs others files : List Bytes) (gendoc : Bytes)
    → watching gopaths name dirs others files gendoc ≢ declined
watching-ne [] name dirs others files gendoc e = cc
watching-ne (g ∷ gs) name dirs others files gendoc e = cc

answered-declined :
    (a : Answer) (on : Going) → on ≢ declined → answered a on ≡ declined → a ≡ answer false
answered-declined (answer true) on ne e = absurd (ne e)
answered-declined (answer false) on ne e = refl
answered-declined fatal on ne e = cc
answered-declined waiting on ne e = cc

-- `runApp` gives up only where a file of the name of the application is there and the user says no.
pub run_app-declined :
    (exists : Bytes → Bool) (typed : List Scanned) (here : Bytes) (args excluded : List Bytes)
    (tree : Node) (others gopaths files : List Bytes) (gendoc : Bytes)
    → run_app exists typed here args excluded tree others gopaths files gendoc ≡ declined
    → (is_asked exists here args ≡ true) × (ask_for_confirmation typed ≡ answer false)
unfolding run_app
run_app-declined exists typed here args excluded tree others gopaths files gendoc e =
    elim (Bool-cases (is_asked exists here args)) [
      | inl asked ↦ (
        asked,
        answered-declined (ask_for_confirmation typed) _ (watching-ne gopaths _ _ _ _ _)
            (rw asked at e),
      )
      | inr unasked ↦ absurd (watching-ne gopaths _ _ _ _ _ (rw unasked at e))
    ]

-- A path without a dollar sign is watched as it is.
pub replace_from_other :
    (new p : Bytes) → count b'$' p ≡ 0 → replace_from gopath_variable new zero p ≡ p
unfolding replace_from count has_prefix
replace_from_other new [] h = refl
replace_from_other new (c ∷ p) h = ground (arith, replace_from_other new p)
