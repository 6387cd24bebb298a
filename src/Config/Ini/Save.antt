-- ===== src/Config/Ini/Save.antt =====
-- core/config/ini.go: the text that `SaveConfigFile` writes. A list is a map in the order in which the
-- loops go through it.
use thinkgo.Base.{
  if◌then◌else◌, Bytes, List, [], ◌∷◌, ◌++◌, Option, none, some, codes, equal, lookup,
}
use thinkgo.Config.Ini.Syntax.{default_section}
use thinkgo.Config.Ini.Parse.{Section, Ini}

-- `"#" + v + "\n"`, if there is a comment
abbrev pub comment_text : Option Bytes → Bytes → Bytes
comment_text none rest = rest
comment_text (some v) rest = b'#' ∷ (v ++ b'\n' ∷ rest)

-- The loop over the keys of a section, in front of what is written next
unfoldable pub entries_text : List (Bytes × Bytes) → Section → Bytes → Bytes
unfolding lookup equal
entries_text comments [] rest = rest
entries_text comments ((k, v) ∷ kvs) rest =
    let next = entries_text comments kvs rest in
    if equal k (codes " ")
    then next
    else comment_text (lookup k comments) (k ++ b'=' ∷ (v ++ b'\n' ∷ next))

-- The default section, with the line between sections
unfoldable pub default_text : List (Bytes × Bytes) → Option Section → Bytes → Bytes
unfolding entries_text
default_text comments none rest = rest
default_text comments (some kvs) rest = entries_text comments kvs (b'\n' ∷ rest)

-- The loop over the other sections
unfoldable pub sections_text : Ini → List (Bytes × Section) → Bytes
unfolding entries_text lookup equal
sections_text c [] = []
sections_text c ((s, kvs) ∷ named) =
    let next = sections_text c named in
    if equal s default_section
    then next
    else comment_text (lookup s c.section_comments)
        (b'[' ∷ (s ++ b']' ∷ b'\n' ∷ entries_text c.key_comments kvs (b'\n' ∷ next)))

-- What `SaveConfigFile` writes
unfoldable pub save : Ini → Bytes
unfolding default_text sections_text lookup
save c =
    default_text c.key_comments (lookup default_section c.sections) (sections_text c c.sections)
