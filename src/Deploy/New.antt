-- ===== src/Deploy/New.antt =====
-- deploy/new.go: `createApp` up to the texts of the files. The environment, the working directory, symbolic
-- links and what exists are arguments; paths have slashes, as everywhere but on Windows.
pub mod Refused
use mathlib.Core.Bool.{false≢true}
use thinkgo.Base.{
  ℕ, ◌+◌, ◌≡◌, ◌≢◌, arith, ◌↔◌, ◌∙◌, sym, leb, refl, ap, Bool, true, false, if◌then◌else◌, Bytes,
  List, [], ◌∷◌, Option, none, some, map, codes, length, drop, to_lower, has_prefix, join_path,
  split_at, join, Bool-cases, inl, inr,
}
use thinkgo.Deploy.Confirm.{Answer, answer, fatal, waiting, Scanned, ask_for_confirmation}

-- The test of the working directory against a directory, in lower case
unfoldable pub lies_under : Bytes → Bytes → Bool
unfolding has_prefix to_lower
lies_under directory wg = has_prefix (to_lower directory) (to_lower wg)

-- The result of `EvalSymlinks`, whose error is dropped
abbrev pub or_empty : Option Bytes → Bytes
or_empty none = []
or_empty (some p) = p

-- The loop over `wgopath`: `appsrcpath`, `none` where `haspath` is false.
module _ (eval_symlinks : Bytes → Option Bytes) (curpath : Bytes) where
  unfoldable pub find_source : List Bytes → Option Bytes
  unfolding lies_under join_path
  find_source [] = none
  find_source (entry ∷ rest) =
      let wg = join_path (entry ∷ codes "src" ∷ []) in
      let target = or_empty (eval_symlinks wg) in
      let later = find_source rest in
      if lies_under curpath wg
      then some wg
      else if lies_under curpath target
      then some target
      else later

  -- An entry of GOPATH that does not hold the working directory: its directory src is there, and neither it
  -- nor what it links to is in front of the working directory.
  abbrev pub IsOutside : Bytes → Type 0
  IsOutside entry =
      (target : Bytes) × (eval_symlinks (join_path (entry ∷ codes "src" ∷ [])) ≡ some target)
      × (lies_under curpath (join_path (entry ∷ codes "src" ∷ [])) ≡ false)
      × (lies_under curpath target ≡ false)

  abbrev pub AllOutside : List Bytes → Type 0
  AllOutside [] = Unit
  AllOutside (entry ∷ rest) = IsOutside entry × AllOutside rest

  -- The empty text is in front of every directory.
  lies_under-nil : lies_under curpath [] ≡ true
  unfolding lies_under
  lies_under-nil = refl

  lies_under-IsOutside :
      (entry : Bytes) (o : Option Bytes)
      → eval_symlinks (join_path (entry ∷ codes "src" ∷ [])) ≡ o
      → lies_under curpath (join_path (entry ∷ codes "src" ∷ [])) ≡ false
      → lies_under curpath (or_empty o) ≡ false
      → IsOutside entry
  lies_under-IsOutside entry none e a b = absurd (false≢true (sym b ∙ lies_under-nil))
  lies_under-IsOutside entry (some target) e a b = (target, e, a, b)

  find_first :
      (entry : Bytes) (rest : List Bytes)
      → lies_under curpath (join_path (entry ∷ codes "src" ∷ [])) ≡ true
      → find_source (entry ∷ rest) ≢ none
  unfolding find_source
  find_first entry rest a h = ground (arith, a, h)

  find_second :
      (entry : Bytes) (rest : List Bytes)
      → lies_under curpath (or_empty (eval_symlinks (join_path (entry ∷ codes "src" ∷ [])))) ≡ true
      → find_source (entry ∷ rest) ≢ none
  unfolding find_source
  find_second entry rest b = ground (arith, b)

  find_past :
      (entry : Bytes) (rest : List Bytes)
      → lies_under curpath (join_path (entry ∷ codes "src" ∷ [])) ≡ false
      → lies_under curpath (or_empty (eval_symlinks (join_path (entry ∷ codes "src" ∷ [])))) ≡ false
      → find_source (entry ∷ rest) ≡ find_source rest
  unfolding find_source
  find_past entry rest a b = rw a (rw b refl)

  lies_under-not-IsOutside :
      (entry : Bytes)
      → lies_under curpath (or_empty (eval_symlinks (join_path (entry ∷ codes "src" ∷ [])))) ≡ true
      → ¬ IsOutside entry
  lies_under-not-IsOutside entry b (target, e, _, t) =
      false≢true (sym t ∙ (ap (lies_under curpath) (ap or_empty (sym e)) ∙ b))

  -- No entry of GOPATH is taken exactly if each has a directory src that can be resolved, and neither that
  -- nor what it links to is, in lower case, a prefix of the working directory in lower case: an entry with
  -- no such directory lets every working directory pass.
  pub find_source-AllOutside :
      (entries : List Bytes) → (find_source entries ≡ none) ↔ AllOutside entries
  find_source-AllOutside [] = (λ _. tt, λ _. unfold find_source in refl)
  find_source-AllOutside (entry ∷ rest) =
      let ih = find_source-AllOutside rest in
      let wg = join_path (entry ∷ codes "src" ∷ []) in
      elim (Bool-cases (lies_under curpath wg)) [
        | inl a ↦
            (λ h. absurd (find_first entry rest a h), λ h. absurd (false≢true (sym h.0.2 ∙ a)))
        | inr a ↦ elim (Bool-cases (lies_under curpath (or_empty (eval_symlinks wg)))) [
          | inl b ↦ (
            λ h. absurd (find_second entry rest b h),
            λ h. absurd (lies_under-not-IsOutside entry b h.0),
          )
          | inr b ↦
              let past = find_past entry rest a b in
              (
                λ h. (lies_under-IsOutside entry (eval_symlinks wg) refl a b, ih.0 (sym past ∙ h)),
                λ h. past ∙ ih.1 h.1,
              )
        ]
      ]

-- How `createApp` ends: with an exit status, waiting for input, in a panic, or with what it has made, in order:
-- directories, then files, with the import path that is put into their texts.
pub data Created : Type 0 where
  exits : ℕ → Created
  waits panics : Created
  made : List Bytes → List Bytes → Bytes → Created

abbrev pub under : Bytes → Bytes → Bytes
under app relative = join_path (app ∷ relative ∷ [])

-- The directories, below the application's, in the order of the calls of `os.Mkdir`.
abbrev pub directories : List Bytes
directories =
    codes "conf"
    ∷ codes "uploads"
    ∷ codes "deploy"
    ∷ codes "deploy/favicon"
    ∷ codes "application"
    ∷ codes "application/common"
    ∷ codes "application/common/controller"
    ∷ codes "application/common/middleware"
    ∷ codes "application/common/model"
    ∷ codes "application/common/view"
    ∷ codes "application/common/view/__public__"
    ∷ codes "application/common/view/__public__/js"
    ∷ codes "application/home"
    ∷ codes "application/home/controller"
    ∷ codes "application/home/view"
    ∷ codes "application/home/view/default"
    ∷ codes "application/home/view/default/index"
    ∷ codes "application/home/view/default/__public__"
    ∷ codes "application/home/view/default/__public__/js"
    ∷ codes "application/home/view/default/__public__/css"
    ∷ codes "application/home/model"
    ∷ []

-- The files, in the order of the calls of `writetofile`.
abbrev pub files : List Bytes
files =
    codes "deploy/favicon_windows.go"
    ∷ codes "deploy/favicon.go"
    ∷ codes "deploy/favicon/favicon.ico"
    ∷ codes "deploy/favicon/favicon.syso"
    ∷ codes "deploy/favicon/init.go"
    ∷ codes "conf/app.conf"
    ∷ codes "application/home.go"
    ∷ codes "application/common/common.go"
    ∷ codes "application/common/template.go"
    ∷ codes "application/common/view/layout.html"
    ∷ codes "application/common/view/__public__/js/jquery.min.js"
    ∷ codes "application/home/common.go"
    ∷ codes "application/home/template.go"
    ∷ codes "application/home/controller.go"
    ∷ codes "application/home/controller/index.go"
    ∷ codes "application/home/view/default/index/index.html"
    ∷ codes "application/home/view/default/index/layout.html"
    ∷ codes "application/home/view/default/__public__/css/thinkgo.css"
    ∷ codes "application/home/view/default/__public__/js/jquery.min.map"
    ∷ codes "application/home/view/default/__public__/js/jquery.githubRepoWidget2.js"
    ∷ codes "main.go"
    ∷ []

-- `apppath[len(appsrcpath)+1:]`, split at the separator and joined again: `none` is a panic.
unfoldable pub import_path : Bytes → Bytes → Option Bytes
unfolding split_at join
import_path app source =
    if leb (length source + 1) (length app)
    then some (join b'/' (split_at b'/' (drop (length source + 1) app)))
    else none

abbrev pub made_at : Bytes → Option Bytes → Created
made_at app none = panics
made_at app (some pkg) = made (app ∷ map (under app) directories) (map (under app) files) pkg

abbrev pub confirmed : Answer → Created → Created
confirmed (answer true) c = c
confirmed (answer false) c = exits 2
confirmed fatal c = exits 1
confirmed waiting c = waits

module _ (eval_symlinks : Bytes → Option Bytes) (exists : Bytes → Bool) (responses : List Scanned)
    (gopath curpath : Bytes) where
  abbrev pub created_in : Bytes → Option Bytes → Created
  created_in name none = exits 2
  created_in name (some source) =
      let app = join_path (curpath ∷ name ∷ []) in
      let c = made_at app (import_path app source) in
      if exists app then confirmed (ask_for_confirmation responses) c else c

  abbrev pub created_with : Bytes → Bytes → Created
  created_with name [] = exits 2
  created_with name (c ∷ g) =
      created_in name (find_source eval_symlinks curpath (split_at b':' (c ∷ g)))

  -- `createApp`
  unfoldable pub create_app : List Bytes → Created
  unfolding find_source import_path join_path ask_for_confirmation split_at
  create_app [] = exits 2
  create_app (name ∷ []) = created_with name gopath
  create_app (name ∷ more ∷ names) = exits 2
