-- ===== src/Deploy/Examples.antt =====
-- The command line tool at concrete inputs.
use mathlib.Core.List.{Perm}
use thinkgo.Base.{
  ℕ, ◌≡◌, ◌↔◌, ◌==◌, ◌&&◌, refl, Bool, true, false, Bytes, List, [], ◌∷◌, Option, none, some, codes,
  equal, if◌then◌else◌,
}
use thinkgo.Deploy.Watch.{
  Watch, Routine, armed, ready, gone, asleep, look, Action, tick, event, act, arm, doze, wake,
  new_watch, step, on_event, Reach, start, next, Late, Any,
}
use thinkgo.Deploy.Watch.Covered.{IsCovered, Reach-IsCovered}
use thinkgo.Deploy.Watch.Exclusive.{IsExclusive, Reach-IsExclusive}
use thinkgo.Deploy.Build.{Conf, autobuild, autobuild-Installs, Installs, build_command}
use thinkgo.Deploy.Dirs.{Node, file, folder, entry, no_entries, read_app_directories}
use thinkgo.Deploy.Dirs.Watched.{watched, read_app_directories-perm}
use thinkgo.Deploy.New.Refused.{Refused}
use thinkgo.Deploy.New.{find_source, directories, files}
use thinkgo.Deploy.Confirm.{contains_string, scanned, answer, ask_for_confirmation}
use thinkgo.Deploy.Colors.{color_log_s, cut_bracket, mark_content, replace_pair}
use thinkgo.Deploy.Command.{Command, first_word, deploy, exited}

abbrev go_files : List Bytes
go_files = codes ".go" ∷ []

abbrev main_go : Bytes
main_go = codes "main.go"

abbrev waiting : Watch
waiting = record {
  now = 0;
  schedule = 1000000000;
  event_times = (main_go, 5) ∷ [];
  routines = ready ∷ asleep 1000000000 ∷ [];
  locked = false;
  set_times = 0 ∷ [];
  stale = true;
}

waiting-Reach : Reach go_files Late waiting
unfolding step on_event
waiting-Reach =
    next (act doze 1)
      (next (act arm 1) (next (act look 1) (next (event main_go 5) (start 0) tt refl) tt refl) tt
        refl)
      tt refl

abbrev one_second_on : Watch
one_second_on = record waiting { now = 1000000001 }

later-Reach : Reach go_files Any one_second_on
unfolding step on_event
later-Reach =
    next (tick 1000000001)
      (next (act doze 1)
        (next (act arm 1) (next (act look 1) (next (event main_go 5) (start 0) tt refl) tt refl) tt
          refl)
        tt refl)
      tt refl

Reach-IsCovered_example : IsCovered waiting
Reach-IsCovered_example = Reach-IsCovered go_files waiting waiting-Reach

Reach-IsExclusive_example : IsExclusive one_second_on
Reach-IsExclusive_example = Reach-IsExclusive go_files one_second_on later-Reach

abbrev woken : Watch
woken = record one_second_on { routines = ready ∷ ready ∷ [] }

-- A schedule of actions, as far as it is possible
run : List Action → Watch → Option Watch
run [] s = some s
run (a ∷ later) s = elim (step go_files a s) [ none ↦ none | some t ↦ run later t ]

-- Two goroutines that both set the time before either reads it sleep until the same time, and both build.
abbrev burst : List Action
burst =
    event main_go 5
    ∷ event main_go 6
    ∷ act look 1
    ∷ act look 2
    ∷ act arm 1
    ∷ act arm 2
    ∷ act doze 1
    ∷ act doze 2
    ∷ tick 1000000001
    ∷ act wake 1
    ∷ act wake 2
    ∷ []

abbrev routines_of : Option Watch → List Routine
routines_of none = []
routines_of (some s) = s.routines

burst_builds_twice : routines_of (run burst (new_watch 0)) ≡ ready ∷ ready ∷ ready ∷ []
unfolding run step on_event equal
burst_builds_twice = refl

-- A goroutine that wakes at the very time that is scheduled ends, and the change is not built.
abbrev on_time : List Action
on_time = event main_go 5 ∷ act look 1 ∷ act arm 1 ∷ act doze 1 ∷ tick 1000000000 ∷ act wake 1 ∷ []

on_time_lost : routines_of (run on_time (new_watch 0)) ≡ ready ∷ gone ∷ []
unfolding run step on_event
on_time_lost = refl

-- A goroutine that is delayed stores its old time behind the newer one, and builds at once.
abbrev delayed : List Action
delayed =
    event main_go 5
    ∷ act look 1
    ∷ tick 2000000000
    ∷ event main_go 6
    ∷ act look 2
    ∷ act arm 2
    ∷ act arm 1
    ∷ act doze 1
    ∷ act wake 1
    ∷ []

delayed_builds_at_once : routines_of (run delayed (new_watch 0)) ≡ ready ∷ ready ∷ armed ∷ []
unfolding run step on_event equal
delayed_builds_at_once = refl

abbrev plain_conf : Conf
plain_conf = record {
  version = 0;
  gopm_enable = false;
  gopm_install = false;
  go_install = true;
  watch_ext = [];
  controllers = [];
  models = [];
  others = [];
  cmd_args = [];
  envs = [];
}

-- Every command succeeds but the generation of documentation.
abbrev no_bee : List Bytes → Bool
no_bee [] = true
no_bee (w ∷ ws) = if equal w (codes "bee") then false else true

abbrev two_packages : Bytes
two_packages = codes "app\napp/models\n"

autobuild_without_docs :
    (autobuild no_bee plain_conf false (codes "app") [] true two_packages).1 ≡ true
unfolding autobuild equal
autobuild_without_docs = refl

autobuild-Installs_example :
    ((autobuild no_bee plain_conf false (codes "app") [] true two_packages).1 ≡ true) ↔ (
      Installs no_bee plain_conf two_packages
      × (no_bee (build_command plain_conf false (codes "app") []) ≡ true))
autobuild-Installs_example =
    autobuild-Installs no_bee plain_conf false (codes "app") [] true two_packages

abbrev source_tree : Node
source_tree = folder (
    entry (codes "models") (folder (entry (codes "user.go") file no_entries)) (
      entry (codes "main.go") file
        (entry (codes "docs") (folder (entry (codes "docs.go") file no_entries)) no_entries)))

source_tree_read :
    read_app_directories [] (codes "app") source_tree ≡ codes "app/models" ∷ codes "app" ∷ []
unfolding read_app_directories
source_tree_read = refl

read_app_directories-perm_example :
    Perm (read_app_directories [] (codes "app") source_tree) (watched [] (codes "app") source_tree)
read_app_directories-perm_example = read_app_directories-perm [] (codes "app") source_tree

-- A directory src that is not there
abbrev no_links : Bytes → Option Bytes
no_links p = none

found_anywhere : find_source no_links (codes "/tmp") (codes "/go" ∷ []) ≡ some []
unfolding find_source
found_anywhere = refl

-- A directory whose name only begins like that of src
beside_source : find_source no_links (codes "/go/src2") (codes "/go" ∷ []) ≡ some (codes "/go/src")
unfolding find_source
beside_source = refl

-- The directory in front of the last slash of a path
abbrev onto_parent : ℕ → Option Bytes → Bytes → Option Bytes
onto_parent c (some p) s = some (c ∷ p)
onto_parent c none s = if c == b'/' then some [] else none

parent : Bytes → Option Bytes
parent [] = none
parent (c ∷ s) = onto_parent c (parent s) s

abbrev is_made : List Bytes → Option Bytes → Bool
is_made made none = true
is_made made (some p) = contains_string made p

-- Each directory stands behind the one that it is in.
parents_first : List Bytes → List Bytes → Bool
parents_first made [] = true
parents_first made (d ∷ ds) = is_made made (parent d) && parents_first (d ∷ made) ds

directories_in_order : parents_first [] directories ≡ true
unfolding parents_first parent contains_string
directories_in_order = refl

files_in_directories : parents_first directories files ≡ true
unfolding parents_first parent contains_string
files_in_directories = refl

abbrev status_seven : Command
status_seven = record {
  usage_line = codes "run [appname]";
  run = some (λ args. 7);
  custom_flags = true;
  flag_args = λ args. args;
}

abbrev topic : Command
topic = record {
  usage_line = codes "run";
  run = none;
  custom_flags = false;
  flag_args = λ args. args;
}

topic_passed_over : deploy (topic ∷ status_seven ∷ []) (codes "run" ∷ codes "app" ∷ []) ≡ exited 7
unfolding deploy first_word equal
topic_passed_over = refl

confirmed_later :
    ask_for_confirmation (scanned (codes "maybe") ∷ scanned (codes "Y") ∷ []) ≡ answer true
unfolding ask_for_confirmation
confirmed_later = refl

-- Behind a text that is no level, everything up to the first "]" is gone.
front_lost : color_log_s true [] (codes "see [a] and b") ≡ some (codes " and b")
unfolding color_log_s cut_bracket mark_content replace_pair
front_lost = refl

warned :
    color_log_s true (codes "12:00 ") (codes "[WARN] Path ( /a ) is [ gone ]")
    ≡ some (codes "12:00 [WARN] Path (/a) is [gone]")
unfolding color_log_s cut_bracket mark_content replace_pair
warned = refl
