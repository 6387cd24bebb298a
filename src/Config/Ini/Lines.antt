-- ===== src/Config/Ini/Lines.antt =====
-- What the loop of `parseFile` in core/config/ini.go does with a line that `SaveConfigFile` writes.
use thinkgo.Base.{
  is_ascii, ℕ, true, ◌<◌, ◌==◌, ◌||◌, ◌≡◌, ◌≢◌, refl, ap, ◌∙◌, false, Bytes, List, [], ◌∷◌, ◌++◌,
  none, some, arith, equal, first, count, length, to_lower,
}
use thinkgo.Config.Ini.Syntax.{
  is_space, default_section, trim_left_space, cons_unless_space, trim_right_space, trim_space,
  cut_at, cons_some, before_last, header_of, comment_of,
}
use thinkgo.Config.Ini.Parse.{
  Ini, Parsed, ok, Reading, ensure, put, keep_comment, read_header, read_pair, unquoted, in_section,
  read_entry, read_other, read_trimmed, read_line,
}

abbrev pub entry_line : Bytes → Bytes → Bytes
entry_line k v = k ++ b'=' ∷ v

abbrev pub header_line : Bytes → Bytes
header_line s = b'[' ∷ (s ++ b']' ∷ [])

-- A text that `ReadLine` gives back as it is: no line break in it, and short enough for its buffer.
abbrev pub IsLine : Bytes → Type 0
IsLine l = (count b'\n' l ≡ 0) × (count b'\r' l ≡ 0) × (length l < 4096)

-- A key and a value that are read as they are written.
pub record IsEntry (k v : Bytes) : Type 0 where
  pub key_ne_nil : k ≢ []
  pub key_start : is_space (first k) ≡ false
  pub key_end : trim_right_space k ≡ k
  pub key_lower : to_lower k ≡ k
  pub key_plain : count b'=' k ≡ 0
  pub key_mark : (first k == b'#' || first k == b';' || first k == b'[') ≡ false
  pub key_ascii : first k < 128
  pub value_start : is_space (first v) ≡ false
  pub value_end : trim_right_space v ≡ v
  pub value_quote : (first v == b'"') ≡ false
  pub ascii : is_ascii (entry_line k v) ≡ true
  pub line : IsLine (entry_line k v)

pub record IsName (s : Bytes) : Type 0 where
  pub lower : to_lower s ≡ s
  pub named : equal s default_section ≡ false
  pub ascii : is_ascii (header_line s) ≡ true
  pub line : IsLine (header_line s)

trim_left_space_id : (s : Bytes) → is_space (first s) ≡ false → trim_left_space s ≡ s
unfolding trim_left_space
trim_left_space_id [] h = refl
trim_left_space_id (c ∷ s) h = rw h refl

cons_unless_space-ne : (c : ℕ) (s : Bytes) → s ≢ [] → cons_unless_space c s ≡ c ∷ s
cons_unless_space-ne c [] h = absurd (h refl)
cons_unless_space-ne c (d ∷ s) h = refl

pub append-ne-nil : (u s : Bytes) → s ≢ [] → (u ++ s) ≢ []
append-ne-nil [] s h = h
append-ne-nil (c ∷ u) s h = ground arith

trim_right_space-append :
    (u s : Bytes) → s ≢ [] → trim_right_space s ≡ s → trim_right_space (u ++ s) ≡ u ++ s
unfolding trim_right_space
trim_right_space-append [] s ne h = h
trim_right_space-append (c ∷ u) s ne h =
    ap (cons_unless_space c) (trim_right_space-append u s ne h)
    ∙ cons_unless_space-ne c (u ++ s) (append-ne-nil u s ne)

pub first-append : (u s : Bytes) → u ≢ [] → first (u ++ s) ≡ first u
first-append [] s h = absurd (h refl)
first-append (c ∷ u) s h = refl

trim_space_id : (s : Bytes) → is_space (first s) ≡ false → trim_right_space s ≡ s → trim_space s ≡ s
unfolding trim_space
trim_space_id s h e = ap trim_right_space (trim_left_space_id s h) ∙ e

cut_at-append : (b : ℕ) (k v : Bytes) → count b k ≡ 0 → cut_at b (k ++ b ∷ v) ≡ (k, some v)
unfolding cut_at count
cut_at-append b [] v h = ground arith
cut_at-append b (c ∷ k) v h = ground (arith, cut_at-append b k v)

before_last-append : (b : ℕ) (s : Bytes) → before_last b (s ++ b ∷ []) ≡ some s
unfolding before_last
before_last-append b [] = ground arith
before_last-append b (c ∷ []) = ground arith
before_last-append b (c ∷ d ∷ s) = ap (cons_some c) (before_last-append b (d ∷ s))

header_of-line : (s : Bytes) → header_of (header_line s) ≡ some s
unfolding header_of
header_of-line s = before_last-append b']' s

comment_of-none : (s : Bytes) → (first s == b'#' || first s == b';') ≡ false → comment_of s ≡ none
unfolding comment_of
comment_of-none [] h = refl
comment_of-none (c ∷ s) h = rw h refl

header_of-none : (s : Bytes) → (first s == b'[') ≡ false → header_of s ≡ none
unfolding header_of
header_of-none [] h = refl
header_of-none (c ∷ s) h = rw h refl

trim_right_space-entry :
    (v : Bytes) → trim_right_space v ≡ v → trim_right_space (b'=' ∷ v) ≡ b'=' ∷ v
unfolding trim_right_space
trim_right_space-entry [] h = refl
trim_right_space-entry (c ∷ v) h = rw h refl

read_line-ne :
    (parse : Bytes → Parsed Ini) (name l : Bytes) (r : Reading)
    → l ≢ []
    → trim_space l ≡ l
    → read_line parse name l r ≡ read_trimmed parse name l r (comment_of l)
unfolding read_line
read_line-ne parse name [] r ne t = absurd (ne refl)
read_line-ne parse name (c ∷ s) r ne t = ap (λ l. read_trimmed parse name l r (comment_of l)) t

keep_comment-nil : (s c : Bytes) (m : List (Bytes × Bytes)) → c ≡ [] → keep_comment s c m ≡ m
keep_comment-nil s c m h = ap (λ x. keep_comment s x m) h

read_key : (k v : Bytes) → IsEntry k v → to_lower (trim_space k) ≡ k
read_key k v e = ap to_lower (trim_space_id k e.key_start e.key_end) ∙ e.key_lower

read_value : (k v : Bytes) → IsEntry k v → unquoted (trim_space v) ≡ v
read_value k v e = ap unquoted (trim_space_id v e.value_start e.value_end) ∙ rw (e.value_quote) refl

read_pair-IsEntry :
    (k v : Bytes) (r : Reading)
    → IsEntry k v
    → r.comment ≡ []
    → read_pair k v r ≡ record r {
      cfg = record r.cfg { sections = put r.section k v r.cfg.sections };
      comment = [];
    }
unfolding read_pair
read_pair-IsEntry k v r e n = rw (read_key k v e) (
    rw (read_value k v e) (
      ap
        (λ m. record r {
          cfg = record r.cfg { sections = put r.section k v r.cfg.sections; key_comments = m };
          comment = [];
        })
        (keep_comment-nil (r.section ++ (b'.' ∷ k)) r.comment r.cfg.key_comments n)))

read_header-IsName :
    (s : Bytes) (r : Reading)
    → IsName s
    → r.comment ≡ []
    → read_header s r ≡ record {
      cfg = record r.cfg { sections = ensure s r.cfg.sections };
      section = s;
      comment = [];
    }
unfolding read_header
read_header-IsName s r h n = rw (h.lower) (
    ap
      (λ m. record {
        cfg = record r.cfg { sections = ensure s r.cfg.sections; section_comments = m };
        section = s;
        comment = [];
      })
      (keep_comment-nil s r.comment r.cfg.section_comments n))

module _ (parse : Bytes → Parsed Ini) (name : Bytes) where
  -- With no comment in front, a line of a key and a value puts the value into the current section.
  pub read_line-entry :
      (k v : Bytes) (r : Reading)
      → IsEntry k v
      → r.comment ≡ []
      → read_line parse name (entry_line k v) r
        ≡ ok (record r {
          cfg = record r.cfg { sections = put r.section k v (ensure r.section r.cfg.sections) };
          comment = [];
        })
  read_line-entry k v r e n =
      let l = entry_line k v in
      let f = first-append k (b'=' ∷ v) e.key_ne_nil in
      let t = trim_space_id l (ap is_space f ∙ e.key_start) (
        trim_right_space-append k (b'=' ∷ v) (ground arith)
          (trim_right_space-entry v e.value_end)) in
      read_line-ne parse name l r (append-ne-nil k (b'=' ∷ v) (ground arith)) t
      ∙ ap (read_trimmed parse name l r) (comment_of-none l (ground (arith, f, e.key_mark)))
      ∙ ap (read_other parse name l r) (header_of-none l (ground (arith, f, e.key_mark)))
      ∙ ap (read_entry parse name l (in_section r)) (cut_at-append b'=' k v e.key_plain)
      ∙ ap ok (read_pair-IsEntry k v (in_section r) e n)

  -- A header line changes to its section, which is made if it is not there.
  pub read_line-header :
      (s : Bytes) (r : Reading)
      → IsName s
      → r.comment ≡ []
      → read_line parse name (header_line s) r
        ≡ ok (record {
          cfg = record r.cfg { sections = ensure s r.cfg.sections };
          section = s;
          comment = [];
        })
  read_line-header s r h n =
      let l = header_line s in
      let t = trim_space_id l refl (
        trim_right_space-append (b'[' ∷ s) (b']' ∷ []) (ground arith)
          (unfold trim_right_space in refl)) in
      read_line-ne parse name l r (ground arith) t
      ∙ ap (read_trimmed parse name l r) (comment_of-none l refl)
      ∙ ap (read_other parse name l r) (header_of-line s)
      ∙ ap ok (read_header-IsName s r h n)
