-- ===== src/Deploy/Build.antt =====
-- deploy/conf.go and `Autobuild` of deploy/watch.go. A command is the list of its words; how it ends, and
-- what `go list` prints, are parameters. The decoders of JSON are parameters as well.
use mathlib.Core.Bool.{false≢true}
use thinkgo.Base.{
  ℕ, ◌≡◌, ◌∙◌, sym, ◌↔◌, inl, inr, refl, ◌||◌, Bool, true, false, if◌then◌else◌, Bytes, List, [],
  ◌∷◌, ◌++◌, Option, none, some, codes, drop, split_at, contains, Bool-cases,
}

-- The variable `conf`, without the fields that nothing reads
pub record Conf : Type 0 where
  pub version : ℕ
  pub gopm_enable : Bool
  pub gopm_install : Bool
  pub go_install : Bool
  pub watch_ext : List Bytes
  pub controllers : Bytes
  pub models : Bytes
  pub others : List Bytes
  pub cmd_args : List Bytes
  pub envs : List Bytes

abbrev pub or_text : Bytes → Bytes → Bytes
or_text d [] = d
or_text d (c ∷ s) = c ∷ s

-- "Set variables"
abbrev pub with_directories : Conf → Conf
with_directories c = record c {
  controllers = or_text (codes "controllers") c.controllers;
  models = or_text (codes "models") c.models;
}

abbrev pub loaded : List Bytes → Option Conf → Option (Conf × List Bytes)
loaded exts none = none
loaded exts (some c) = some (with_directories c, exts ++ c.watch_ext)

-- `loadConfig`, on what the file bee.json decodes to, or else the default text: `conf` and `watchExts`,
-- and `none` where an error is returned.
unfoldable pub load_config :
    {Json : Type 0}
    → (Json → Option Conf)
    → (Bytes → Option Conf)
    → Bytes
    → Option Json
    → List Bytes
    → Option (Conf × List Bytes)
load_config decode unmarshal default_conf none exts = loaded exts (unmarshal default_conf)
load_config decode unmarshal default_conf (some f) exts = loaded exts (decode f)

abbrev pub Command : Type 0
Command = List Bytes

-- What was run, and whether the error is nil.
abbrev pub Ended : Type 0
Ended = List Command × Bool

abbrev pub go_list : Command
go_list = codes "go" ∷ codes "list" ∷ codes "./..." ∷ []

-- The packages that `go list` prints, behind the first
abbrev pub listed_packages : Bytes → List Bytes
listed_packages out = drop 1 (split_at b'\n' out)

abbrev pub after_list : Bytes → Ended → Ended
after_list go e = (go_list ∷ e.0, e.1)

abbrev pub generate_docs : Command
generate_docs = codes "bee" ∷ codes "generate" ∷ codes "docs" ∷ []

abbrev pub go_name : Conf → Bytes
go_name c = if c.gopm_enable then codes "gopm" else codes "go"

abbrev pub executable : Bool → Bytes → Bytes
executable windows appname = if windows then appname ++ codes ".exe" else appname

abbrev pub build_command : Conf → Bool → Bytes → List Bytes → Command
build_command c windows appname files =
    go_name c ∷ codes "build" ∷ codes "-o" ∷ executable windows appname ∷ files

abbrev pub documented : Bool → Ended → Ended
documented isgenerate e = if isgenerate then (e.0 ++ generate_docs ∷ [], e.1) else e

module _ (succeeds : Command → Bool) where
  -- The loop over the packages, which an error ends
  unfoldable pub install_all : Bytes → List Bytes → Ended
  install_all go [] = ([], true)
  install_all go ([] ∷ pkgs) = install_all go pkgs
  install_all go ((c ∷ p) ∷ pkgs) =
      let icmd = go ∷ codes "install" ∷ (c ∷ p) ∷ [] in
      let rest = install_all go pkgs in
      if succeeds icmd then (icmd ∷ rest.0, rest.1) else (icmd ∷ [], false)

  unfoldable pub install : Bytes → Bytes → Ended
  unfolding install_all split_at
  install go out =
      if succeeds go_list
      then after_list go (install_all go (listed_packages out))
      else (go_list ∷ [], false)

  abbrev pub installed : Conf → Bytes → Ended
  installed c out = if c.go_install || c.gopm_install then install (go_name c) out else ([], true)

  abbrev pub built : Command → Ended → Ended
  built bcmd e = if e.1 then (e.0 ++ bcmd ∷ [], succeeds bcmd) else e

  -- `Autobuild`: what is run, and whether the application is restarted.
  unfoldable pub autobuild : Conf → Bool → Bytes → List Bytes → Bool → Bytes → Ended
  unfolding install
  autobuild c windows appname files isgenerate out =
      built (build_command c windows appname files) (documented isgenerate (installed c out))

-- The name of the executable that `Start` runs, and the words of the command. Behind it, `Start` sends
-- on a channel that nothing receives from.
unfoldable pub start_args : Conf → Bytes → List Bytes
unfolding contains
start_args c appname =
    (if contains appname (codes "./") then appname else codes "./" ++ appname) ∷ c.cmd_args

module _ (succeeds : Command → Bool) where
  -- Each package that has a name is installed.
  abbrev pub AllInstall : Bytes → List Bytes → Type 0
  AllInstall go [] = Unit
  AllInstall go ([] ∷ pkgs) = AllInstall go pkgs
  AllInstall go ((c ∷ p) ∷ pkgs) =
      (succeeds (go ∷ codes "install" ∷ (c ∷ p) ∷ []) ≡ true) × AllInstall go pkgs

  install_all-AllInstall :
      (go : Bytes) (pkgs : List Bytes)
      → ((install_all succeeds go pkgs).1 ≡ true) ↔ AllInstall go pkgs
  unfolding install_all
  install_all-AllInstall go [] = (λ _. tt, λ _. refl)
  install_all-AllInstall go ([] ∷ pkgs) = install_all-AllInstall go pkgs
  install_all-AllInstall go ((c ∷ p) ∷ pkgs) =
      let ih = install_all-AllInstall go pkgs in
      elim (Bool-cases (succeeds (go ∷ codes "install" ∷ (c ∷ p) ∷ []))) [
        | inl e ↦ rw e (λ h. (refl, ih.0 h), λ h. ih.1 h.1)
        | inr e ↦ rw e (λ h. absurd (false≢true h), λ h. h.0)
      ]

  -- Where packages are to be installed, `go list` succeeds, and so does the installation of each package
  -- that it prints behind the first.
  abbrev pub InstallsIf : Bool → Bytes → Bytes → Type 0
  InstallsIf true go out = (succeeds go_list ≡ true) × AllInstall go (listed_packages out)
  InstallsIf false go out = Unit

  abbrev pub Installs : Conf → Bytes → Type 0
  Installs c out = InstallsIf (c.go_install || c.gopm_install) (go_name c) out

  install-Installs :
      (go out : Bytes)
      → ((install succeeds go out).1 ≡ true)
        ↔ ((succeeds go_list ≡ true) × AllInstall go (listed_packages out))
  unfolding install
  install-Installs go out =
      let all = install_all-AllInstall go (listed_packages out) in
      elim (Bool-cases (succeeds go_list)) [
        | inl e ↦ rw e (λ h. (refl, all.0 h), λ h. all.1 h.1)
        | inr e ↦ rw e (λ h. absurd (false≢true h), λ h. h.0)
      ]

  built_iff :
      (bcmd : Command) (e : Ended)
      → ((built succeeds bcmd e).1 ≡ true) ↔ ((e.1 ≡ true) × (succeeds bcmd ≡ true))
  built_iff bcmd (cmds, true) = (λ h. (refl, h), λ h. h.1)
  built_iff bcmd (cmds, false) = (λ h. absurd (false≢true h), λ h. h.0)

  documented_same : (g : Bool) (e : Ended) → (documented g e).1 ≡ e.1
  documented_same true e = refl
  documented_same false e = refl

  installed-InstallsIf :
      (wanted : Bool) (go out : Bytes)
      → ((if wanted then install succeeds go out else ([], true)).1 ≡ true)
        ↔ InstallsIf wanted go out
  installed-InstallsIf true go out = install-Installs go out
  installed-InstallsIf false go out = (λ h. tt, λ h. refl)

  -- The application is restarted exactly if the packages that are to be installed are installed and the
  -- build succeeds, whatever becomes of the documentation.
  pub autobuild-Installs :
      (c : Conf) (windows : Bool) (appname : Bytes) (files : List Bytes) (isgenerate : Bool)
      (out : Bytes)
      → ((autobuild succeeds c windows appname files isgenerate out).1 ≡ true)
        ↔ (Installs c out × (succeeds (build_command c windows appname files) ≡ true))
  unfolding autobuild
  autobuild-Installs c windows appname files isgenerate out =
      let e = documented isgenerate (installed succeeds c out) in
      let b = built_iff (build_command c windows appname files) e in
      let i = installed-InstallsIf (c.go_install || c.gopm_install) (go_name c) out in
      let d = documented_same isgenerate (installed succeeds c out) in
      (λ h. (i.0 (sym d ∙ (b.0 h).0), (b.0 h).1), λ h. b.1 (d ∙ i.1 h.0, h.1))
