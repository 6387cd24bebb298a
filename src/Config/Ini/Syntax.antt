-- ===== src/Config/Ini/Syntax.antt =====
-- core/config/ini.go: the functions on bytes that `parseFile` calls on a line. White space and letters are
-- the ASCII ones.
use thinkgo.Base.{
  ℕ, Bool, true, false, ◌&&◌, ◌||◌, ◌==◌, if◌then◌else◌, Bytes, List, [], ◌∷◌, Option, none, some,
  codes, within, trim_left, clean,
}

abbrev pub is_space : ℕ → Bool
is_space c = within 9 13 c || c == b' '

abbrev pub default_section : Bytes
default_section = codes "default"

-- `bytes.TrimLeftFunc(line, unicode.IsSpace)`
unfoldable pub trim_left_space : Bytes → Bytes
trim_left_space [] = []
trim_left_space (c ∷ s) = if is_space c then trim_left_space s else c ∷ s

abbrev pub cons_unless_space : ℕ → Bytes → Bytes
cons_unless_space c [] = if is_space c then [] else c ∷ []
cons_unless_space c (d ∷ s) = c ∷ d ∷ s

unfoldable pub trim_right_space : Bytes → Bytes
trim_right_space [] = []
trim_right_space (c ∷ s) = cons_unless_space c (trim_right_space s)

-- `bytes.TrimSpace`
unfoldable pub trim_space : Bytes → Bytes
unfolding trim_left_space trim_right_space
trim_space s = trim_right_space (trim_left_space s)

-- `bytes.SplitN(line, "=", 2)`: the second piece is there if the separator is.
abbrev pub cons_left : ℕ → Bytes × Option Bytes → Bytes × Option Bytes
cons_left c (k, v) = (c ∷ k, v)

unfoldable pub cut_at : ℕ → Bytes → Bytes × Option Bytes
cut_at b [] = ([], none)
cut_at b (c ∷ s) = let rest = cons_left c (cut_at b s) in if c == b then ([], some s) else rest

-- `strings.Fields`: the flag says that a word is being read.
abbrev pub onto_word : ℕ → Bool → List Bytes → List Bytes
onto_word c true (w ∷ ws) = (c ∷ w) ∷ ws
onto_word c _ ws = (c ∷ []) ∷ ws

unfoldable pub starts_word : Bytes → Bool
starts_word [] = false
starts_word (c ∷ s) = if is_space c then false else true

unfoldable pub fields : Bytes → List Bytes
unfolding starts_word
fields [] = []
fields (c ∷ s) =
    let rest = fields s in if is_space c then rest else onto_word c (starts_word s) rest

-- A section header's text between the brackets, if the line is one.
abbrev pub cons_some : ℕ → Option Bytes → Option Bytes
cons_some c none = none
cons_some c (some s) = some (c ∷ s)

unfoldable pub before_last : ℕ → Bytes → Option Bytes
before_last b [] = none
before_last b (c ∷ []) = if c == b then some [] else none
before_last b (c ∷ d ∷ s) = cons_some c (before_last b (d ∷ s))

unfoldable pub header_of : Bytes → Option Bytes
unfolding before_last
header_of [] = none
header_of (c ∷ s) = if c == b'[' then before_last b']' s else none

-- The text of a comment, if the line is one.
unfoldable pub comment_of : Bytes → Option Bytes
unfolding trim_left trim_left_space
comment_of [] = none
comment_of (c ∷ s) =
    if c == b'#' || c == b';' then some (trim_left_space (trim_left c (c ∷ s))) else none

-- The three bytes of a byte order mark at the start
unfoldable pub strip_bom : Bytes → Bytes
strip_bom (a ∷ b ∷ c ∷ s) = elim ((a == 239) && (b == 187) && (c == 191)) [
  | true ↦ s
  | false ↦ a ∷ b ∷ c ∷ s
]
strip_bom s = s

-- `path.Dir`: what stands in front of the last slash, and the slash, cleaned.
abbrev pub to_slash : ℕ → Bytes → Bytes
to_slash c [] = if c == b'/' then c ∷ [] else []
to_slash c (d ∷ s) = c ∷ d ∷ s

unfoldable pub up_to_slash : Bytes → Bytes
up_to_slash [] = []
up_to_slash (c ∷ s) = to_slash c (up_to_slash s)

unfoldable pub dir : Bytes → Bytes
unfolding up_to_slash clean
dir name = clean (up_to_slash name)
