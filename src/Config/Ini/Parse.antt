-- ===== src/Config/Ini/Parse.antt =====
-- core/config/ini.go: `parseFile`. Files are a function from names to their bytes, `none` where a file
-- cannot be opened, and `read_lines` is what `bufio.Reader.ReadLine` gives until the end of the file.
use thinkgo.Base.{
  ℕ, zero, suc, ◌==◌, if◌then◌else◌, Bytes, List, [], ◌∷◌, ◌++◌, Option, none, some, codes, equal,
  first, has_prefix, lookup, insert, to_lower, trim, join_path,
}
use thinkgo.Config.Ini.Syntax.{
  default_section, trim_space, cut_at, fields, header_of, comment_of, strip_bom, dir,
}

abbrev pub Section : Type 0
Section = List (Bytes × Bytes)

-- `IniConfigContainer`
pub record Ini : Type 0 where
  pub filename : Bytes
  pub sections : List (Bytes × Section)
  pub section_comments : List (Bytes × Bytes)
  pub key_comments : List (Bytes × Bytes)

abbrev pub empty_ini : Bytes → Ini
empty_ini name = record { filename = name; sections = []; section_comments = []; key_comments = [] }

-- How a parse ends. `bad_line` is the error for a line that is no "key = val", `not_opened` that for a
-- file that is not there, and `out_of_fuel` that of `os.Open` when too many files are open.
pub data Parsed (A : Type 0) : Type 0 where
  ok : A → Parsed A
  not_opened bad_line : Bytes → Parsed A
  out_of_fuel : Parsed A

infixl 5 ◌>>=◌
abbrev pub ◌>>=◌ : {A B : Type 0} → Parsed A → (A → Parsed B) → Parsed B
ok a >>= f = f a
not_opened n >>= f = not_opened n
bad_line l >>= f = bad_line l
out_of_fuel >>= f = out_of_fuel

-- The variables of the loop: `cfg`, `section` and the text in the buffer `comment`.
pub record Reading : Type 0 where
  pub cfg : Ini
  pub section : Bytes
  pub comment : Bytes

-- The section of a name, empty if there is none
abbrev pub or_new : Option Section → Section
or_new none = []
or_new (some m) = m

-- `if _, ok := cfg.data[section]; !ok { cfg.data[section] = make(…) }`
unfoldable pub ensure : Bytes → List (Bytes × Section) → List (Bytes × Section)
unfolding lookup insert
ensure s m = insert s (or_new (lookup s m)) m

-- `cfg.data[section][key] = val`
unfoldable pub put : Bytes → Bytes → Bytes → List (Bytes × Section) → List (Bytes × Section)
unfolding lookup insert
put s k v m = insert s (insert k v (or_new (lookup s m))) m

unfoldable pub put_all : Bytes → Section → List (Bytes × Section) → List (Bytes × Section)
unfolding put
put_all s [] m = m
put_all s ((k, v) ∷ kvs) m = put_all s kvs (put s k v m)

unfoldable pub merge_sections :
    List (Bytes × Section) → List (Bytes × Section) → List (Bytes × Section)
unfolding ensure put_all
merge_sections [] m = m
merge_sections ((s, kvs) ∷ new) m = merge_sections new (put_all s kvs (ensure s m))

unfoldable pub insert_all : List (Bytes × Bytes) → List (Bytes × Bytes) → List (Bytes × Bytes)
unfolding insert
insert_all [] m = m
insert_all ((k, v) ∷ new) m = insert_all new (insert k v m)

-- What an included file adds
unfoldable pub merge : Ini → Ini → Ini
unfolding merge_sections insert_all
merge i cfg = record cfg {
  sections = merge_sections i.sections cfg.sections;
  section_comments = insert_all i.section_comments cfg.section_comments;
  key_comments = insert_all i.key_comments cfg.key_comments;
}

-- A comment that was read, kept under a name if it is not empty
abbrev pub keep_comment : Bytes → Bytes → List (Bytes × Bytes) → List (Bytes × Bytes)
keep_comment name [] m = m
keep_comment name (c ∷ s) m = insert name (c ∷ s) m

-- A line that is a section header
unfoldable pub read_header : Bytes → Reading → Reading
unfolding to_lower ensure insert
read_header text r =
    let s = to_lower text in
    record {
      cfg = record r.cfg {
        sections = ensure s r.cfg.sections;
        section_comments = keep_comment s r.comment r.cfg.section_comments;
      };
      section = s;
      comment = [];
    }

-- A value without the quotes around it
abbrev pub unquoted : Bytes → Bytes
unquoted v = if first v == b'"' then trim b'"' v else v

-- A line that is a key and a value
unfoldable pub read_pair : Bytes → Bytes → Reading → Reading
unfolding trim_space to_lower put insert
read_pair k v r =
    let key = to_lower (trim_space k) in
    record r {
      cfg = record r.cfg {
        sections = put r.section key (unquoted (trim_space v)) r.cfg.sections;
        key_comments = keep_comment (r.section ++ (b'.' ∷ key)) r.comment r.cfg.key_comments;
      };
      comment = [];
    }

-- The file that a line without '=' names, if it is an include; `name` is the file that it stands in.
abbrev pub two_words : List Bytes → Option Bytes
two_words (w ∷ f ∷ []) = if equal w (codes "include") then some f else none
two_words _ = none

unfoldable pub include_of : Bytes → Bytes → Option Bytes
unfolding fields to_lower trim_space dir join_path equal has_prefix
include_of name line =
    let key = to_lower (trim_space line) in
    if has_prefix key (codes "include")
    then elim (two_words (fields key)) [
      | none ↦ none
      | some word ↦
          let other = trim b'"' word in
          some (if first other == b'/' then other else join_path (dir name ∷ other ∷ []))
    ]
    else none

-- The section that a line belongs to is made, if it is not there.
abbrev pub in_section : Reading → Reading
in_section r = record r { cfg = record r.cfg { sections = ensure r.section r.cfg.sections } }

-- A line without '='
abbrev pub read_include : (Bytes → Parsed Ini) → Bytes → Reading → Option Bytes → Parsed Reading
read_include parse line r none = bad_line line
read_include parse line r (some other) = parse other >>= λ i. ok (record r { cfg = merge i r.cfg })

abbrev pub read_entry :
    (Bytes → Parsed Ini) → Bytes → Bytes → Reading → Bytes × Option Bytes → Parsed Reading
read_entry parse name line r (k, some v) = ok (read_pair k v r)
read_entry parse name line r (k, none) = read_include parse line r (include_of name k)

-- A line that is not a comment
abbrev pub read_other :
    (Bytes → Parsed Ini) → Bytes → Bytes → Reading → Option Bytes → Parsed Reading
read_other parse name line r (some text) = ok (read_header text r)
read_other parse name line r none = read_entry parse name line (in_section r) (cut_at b'=' line)

abbrev pub read_trimmed :
    (Bytes → Parsed Ini) → Bytes → Bytes → Reading → Option Bytes → Parsed Reading
read_trimmed parse name line r (some text) =
    ok (record r { comment = r.comment ++ (text ++ b'\n' ∷ []) })
read_trimmed parse name line r none = read_other parse name line r (header_of line)

-- A round of the loop; `parse` is the call of `parseFile` for an included file.
unfoldable pub read_line : (Bytes → Parsed Ini) → Bytes → Bytes → Reading → Parsed Reading
unfolding trim_space comment_of header_of cut_at include_of read_pair read_header ensure merge
read_line parse name [] r = ok r
read_line parse name (c ∷ s) r =
    let line = trim_space (c ∷ s) in read_trimmed parse name line r (comment_of line)

unfoldable pub read_all : (Bytes → Parsed Ini) → Bytes → List Bytes → Reading → Parsed Reading
unfolding read_line
read_all parse name [] r = ok r
read_all parse name (l ∷ ls) r = read_line parse name l r >>= read_all parse name ls

abbrev pub start : Bytes → Reading
start name = record { cfg = empty_ini name; section = default_section; comment = [] }

-- What `parseFile` does with a file, if it can be opened; `parse` is its call for an included file.
abbrev pub parse_text :
    (Bytes → List Bytes) → (Bytes → Parsed Ini) → Bytes → Option Bytes → Parsed Ini
parse_text read_lines parse name none = not_opened name
parse_text read_lines parse name (some text) =
    read_all parse name (read_lines (strip_bom text)) (start name) >>= λ r. ok r.cfg

-- `parseFile`. The fuel is the number of files that may be open at once: each call keeps its file open
-- until it returns, so that files which include one another too deep, or without end, come to a call of
-- `os.Open` that fails; `out_of_fuel` is that error.
module _ (read_lines : Bytes → List Bytes) (files : Bytes → Option Bytes) where
  unfoldable pub parse_file : ℕ → Bytes → Parsed Ini
  unfolding read_all strip_bom
  parse_file zero name = out_of_fuel
  parse_file (suc fuel) name = parse_text read_lines (parse_file fuel) name (files name)
