-- ===== src/Config/Ini/Examples.antt =====
-- core/config/ini.go at concrete files.
use thinkgo.Base.{
  ℕ, ◌==◌, ◌≡◌, refl, if◌then◌else◌, Bytes, List, [], ◌∷◌, ◌++◌, Option, none, some, codes, equal,
  onto_first, trim_right,
}
use thinkgo.Config.Ini.Syntax.{cut_at, header_of, comment_of, strip_bom}
use thinkgo.Config.Ini.Parse.{bad_line, parse_file, read_line, include_of, empty_ini, Section}
use thinkgo.Config.Ini.Save.{save}
use thinkgo.Config.Ini.RoundTrip.{container, with_default}
use thinkgo.Config.Ini.Include.{Fails, included, parse_file-itself}

-- The lines of a text whose last line ends too.
pub cut_lines : Bytes → List Bytes
cut_lines [] = []
cut_lines (c ∷ s) = let rest = cut_lines s in if c == b'\n' then [] ∷ rest else onto_first c rest

abbrev one : Bytes → Bytes → Bytes → Option Bytes
one name text n = if equal n name then some text else none

-- A line of blanks is no "key = val".
blank_line : parse_file cut_lines (one (codes "a") (codes " \n")) 1 (codes "a") ≡ bad_line []
unfolding parse_file cut_lines equal read_line
blank_line = refl

two_comments : Bytes
unfolding save
two_comments = save (record (empty_ini (codes "a")) {
  sections = (codes "db", []) ∷ [];
  section_comments = (codes "db", codes "x\ny\n") ∷ [];
})

-- The second line of a section's comment is saved without its mark, and is not read back.
comment_is_lost :
    parse_file cut_lines (one (codes "a") two_comments) 1 (codes "a") ≡ bad_line (codes "y")
unfolding two_comments parse_file cut_lines equal read_line
comment_is_lost = refl

abbrev globals : Section
globals = (codes "port", codes "80") ∷ []

abbrev tables : List (Bytes × Section)
tables = (codes "db", (codes "host", codes "x y") ∷ []) ∷ []

abbrev saved : Bytes
saved = save (container (codes "app.conf") (with_default globals tables))

-- A file that includes itself behind a pair
abbrev loop_text : Bytes
loop_text = codes "port=80\ninclude /a\n"

abbrev loop_file : Bytes → Option Bytes
loop_file = one (codes "/a") loop_text

loop_lines : cut_lines (strip_bom loop_text) ≡ (codes "port=80" ∷ []) ++ codes "include /a" ∷ []
unfolding cut_lines strip_bom
loop_lines = refl

loop_include : included (codes "/a") (codes "include /a") ≡ some (codes "/a")
unfolding comment_of header_of cut_at include_of trim_right
loop_include = refl

loop_opens : loop_file (codes "/a") ≡ some loop_text
unfolding equal
loop_opens = refl

parse_file-itself_example : Fails (parse_file cut_lines loop_file 9 (codes "/a"))
parse_file-itself_example =
    parse_file-itself cut_lines loop_file (codes "/a") loop_text (codes "include /a")
      (codes "port=80" ∷ []) [] loop_opens loop_lines loop_include 9

-- A file that includes another one
abbrev two_files : Bytes → Option Bytes
two_files name = some (if equal name (codes "/a") then codes "include /b\n" else codes "port=80\n")

abbrev rank : Bytes → ℕ
rank name = if equal name (codes "/a") then 1 else 0
