-- ===== src/Deploy/Dirs.antt =====
-- deploy/run.go: `readAppDirectories` and `isExcluded`. What `ioutil.ReadDir` gives for a directory is its
-- node in a tree; names are not empty.
pub mod Watched
use thinkgo.Base.{
  ◌≡◌, ◌==◌, ◌&&◌, ◌||◌, not, Bool, true, false, if◌then◌else◌, Bytes, List, [], ◌∷◌, ◌++◌, codes,
  equal, first, count, has_suffix,
}

mutual
  pub data Node : Type 0 where
    file unreadable : Node
    folder : Entries → Node

  pub data Entries : Type 0 where
    no_entries : Entries
    entry : Bytes → Node → Entries → Entries

abbrev pub is_dir : Node → Bool
is_dir file = false
is_dir unreadable = true
is_dir (folder es) = true

-- `path.Ext`
abbrev pub cons_ext : Bytes → Bytes → Bytes
cons_ext [] cs = []
cons_ext (c ∷ s) [] = if c == b'.' && count b'/' s == 0 then c ∷ s else []
cons_ext (c ∷ s) (e ∷ es) = e ∷ es

unfoldable pub ext : Bytes → Bytes
unfolding count
ext [] = []
ext (c ∷ s) = cons_ext (c ∷ s) (ext s)

-- `isExcluded`, over `excludedPaths`
unfoldable pub is_excluded : List Bytes → Bytes → Bool
unfolding has_suffix
is_excluded [] name = false
is_excluded (p ∷ ps) name = if has_suffix name p then true else is_excluded ps name

-- The two `continue` at the top of the loop
unfoldable pub is_passed_over : List Bytes → Bytes → Bool
unfolding has_suffix is_excluded
is_passed_over excluded name = has_suffix name (codes "docs") || is_excluded excluded name

abbrev pub is_descended : Bytes → Node → Bool
is_descended name node = is_dir node && not (first name == b'.')

abbrev pub is_source : Bytes → Bool
is_source name = equal (ext name) (codes ".go")

abbrev pub below : Bytes → Bytes → Bytes
below directory name = directory ++ b'/' ∷ name

-- `readAppDirectories`: what it appends to `paths`. `use_directory` is the variable of that name.
unfoldable mutual
  unfolding is_passed_over ext equal

  pub read_app_directories : List Bytes → Bytes → Node → List Bytes
  read_app_directories excluded directory file = []
  read_app_directories excluded directory unreadable = []
  read_app_directories excluded directory (folder es) = read_entries excluded directory false es

  pub read_entries : List Bytes → Bytes → Bool → Entries → List Bytes
  read_entries excluded directory use_directory no_entries = []
  read_entries excluded directory use_directory (entry name node es) =
      let later = read_entries excluded directory use_directory es in
      let found = directory ∷ read_entries excluded directory true es in
      let inside = read_app_directories excluded (below directory name) node ++ later in
      if is_passed_over excluded name
      then later
      else if is_descended name node
      then inside
      else if use_directory
      then later
      else if is_source name
      then found
      else later
