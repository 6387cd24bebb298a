-- ===== src/Deploy/Dirs/Watched.antt =====
-- Which directories `readAppDirectories` of deploy/run.go finds.
use mathlib.Core.List.{Perm, perm_append_comm}
use mathlib.Core.List.Perm
use thinkgo.Base.{
  ◌&&◌, ◌||◌, not, Bool, true, false, if◌then◌else◌, Bytes, List, [], ◌∷◌, ◌++◌, subst,
  append_assoc,
}
use thinkgo.Deploy.Dirs.{
  Node, file, unreadable, folder, Entries, no_entries, entry, is_passed_over, is_descended,
  is_source, below, read_app_directories, read_entries,
}

-- Whether a directory has a source file of its own: an entry that is not passed over or descended into,
-- and ends in ".go".
pub has_source : List Bytes → Entries → Bool
has_source excluded no_entries = false
has_source excluded (entry name node es) =
    (not (is_passed_over excluded name) && (not (is_descended name node) && is_source name))
    || has_source excluded es

abbrev pub own : Bool → Bytes → List Bytes
own true directory = directory ∷ []
own false directory = []

-- The directories that are to be watched, each in front of those below it.
mutual
  pub watched : List Bytes → Bytes → Node → List Bytes
  watched excluded directory file = []
  watched excluded directory unreadable = []
  watched excluded directory (folder es) =
      own (has_source excluded es) directory ++ watched_below excluded directory es

  pub watched_below : List Bytes → Bytes → Entries → List Bytes
  watched_below excluded directory no_entries = []
  watched_below excluded directory (entry name node es) =
      let later = watched_below excluded directory es in
      let inside = watched excluded (below directory name) node ++ later in
      if not (is_passed_over excluded name) && is_descended name node then inside else later

perm_append_swap : {A : Type 0} (xs ys zs : List A) → Perm (xs ++ (ys ++ zs)) (ys ++ (xs ++ zs))
perm_append_swap xs ys zs =
    subst (λ l. Perm l (ys ++ (xs ++ zs))) (append_assoc xs ys zs)
      (subst (λ l. Perm ((xs ++ ys) ++ zs) l) (append_assoc ys xs zs)
        (Perm.append_right zs (perm_append_comm xs ys)))

-- What is left of a directory's own path once it was found
abbrev own_of : Bool → Bool → Bytes → List Bytes
own_of true has directory = []
own_of false has directory = own has directory

-- One entry: what is found behind it, with and without the directory itself, and what is found inside.
entry-perm :
    (passed descended used source has : Bool) (directory : Bytes)
    (later found inside wanted below : List Bytes)
    → Perm inside wanted
    → Perm later (own_of used has directory ++ below)
    → Perm found below
    → Perm
        (if passed
          then later
          else if descended
          then inside ++ later
          else if used
          then later
          else if source
          then directory ∷ found
          else later)
        (own_of used ((not passed && (not descended && source)) || has) directory
          ++ (if not passed && descended then wanted ++ below else below))
entry-perm true _ _ _ _ _ _ _ _ _ _ i l f = l
entry-perm false true used _ has directory later _ inside wanted below i l f =
    Perm.trans (Perm.append i l) (perm_append_swap wanted (own_of used has directory) below)
entry-perm false false true _ _ _ _ _ _ _ _ i l f = l
entry-perm false false false true _ directory _ _ _ _ _ i l f = Perm.cons directory f
entry-perm false false false false _ _ _ _ _ _ _ i l f = l

mutual
  unfolding read_app_directories read_entries watched watched_below has_source

  read-perm :
      (excluded : List Bytes) (directory : Bytes) (node : Node)
      → Perm (read_app_directories excluded directory node) (watched excluded directory node)
  read-perm excluded directory file = Perm.refl []
  read-perm excluded directory unreadable = Perm.refl []
  read-perm excluded directory (folder es) = entries-perm excluded directory false es

  entries-perm :
      (excluded : List Bytes) (directory : Bytes) (used : Bool) (es : Entries)
      → Perm
          (read_entries excluded directory used es)
          (own_of used (has_source excluded es) directory ++ watched_below excluded directory es)
  entries-perm excluded directory true no_entries = Perm.refl []
  entries-perm excluded directory false no_entries = Perm.refl []
  entries-perm excluded directory used (entry name node es) =
      entry-perm (is_passed_over excluded name) (is_descended name node) used (is_source name)
        (has_source excluded es) directory (read_entries excluded directory used es)
        (read_entries excluded directory true es)
        (read_app_directories excluded (below directory name) node)
        (watched excluded (below directory name) node) (watched_below excluded directory es)
        (read-perm excluded (below directory name) node) (entries-perm excluded directory used es)
        (entries-perm excluded directory true es)

-- `readAppDirectories` finds each directory that has a source file of its own once, and no other, where
-- it goes into the directories that are neither passed over nor hidden: its result is that list, in
-- another order.
pub read_app_directories-perm :
    (excluded : List Bytes) (directory : Bytes) (node : Node)
    → Perm (read_app_directories excluded directory node) (watched excluded directory node)
read_app_directories-perm excluded directory node = read-perm excluded directory node
