-- ===== src/Config/Ini/RoundTrip.antt =====
-- What `SaveConfigFile` of core/config/ini.go writes, read by its `parseFile`.
use thinkgo.Base.{
  ◌≡◌, refl, ap, ◌∙◌, Bytes, List, [], ◌∷◌, ◌++◌, none, some, arith, equal_refl, append_assoc,
  append-nil, lookup, insert,
}
use thinkgo.Config.Ini.Syntax.{default_section}
use thinkgo.Config.Ini.Parse.{
  Section, Ini, empty_ini, Parsed, ok, ◌>>=◌, Reading, or_new, ensure, put, read_all, read_line,
  start,
}
use thinkgo.Config.Ini.Lines.{
  entry_line, header_line, IsEntry, IsName, read_line-entry, read_line-header,
}

abbrev pub unlines : List Bytes → Bytes
unlines [] = []
unlines (l ∷ ls) = l ++ b'\n' ∷ unlines ls

abbrev pub entry_lines : Section → List Bytes
entry_lines [] = []
entry_lines ((k, v) ∷ kvs) = entry_line k v ∷ entry_lines kvs

abbrev pub section_lines : List (Bytes × Section) → List Bytes
section_lines [] = []
section_lines ((s, kvs) ∷ named) = header_line s ∷ (entry_lines kvs ++ [] ∷ section_lines named)

-- The lines of a file; `kvs` is the default section.
abbrev pub file_lines : Section → List (Bytes × Section) → List Bytes
file_lines [] named = section_lines named
file_lines (kv ∷ kvs) named = entry_lines (kv ∷ kvs) ++ [] ∷ section_lines named

abbrev pub with_default : Section → List (Bytes × Section) → List (Bytes × Section)
with_default [] named = named
with_default (kv ∷ kvs) named = (default_section, kv ∷ kvs) ∷ named

-- A container with no comments
abbrev pub container : Bytes → List (Bytes × Section) → Ini
container name secs = record (empty_ini name) { sections = secs }

-- No key stands twice, nor among those in front.
abbrev pub Distinct : {V : Type 0} → List (Bytes × V) → List (Bytes × V) → Type 0
Distinct old [] = Unit
Distinct old ((k, v) ∷ new) = (lookup k old ≡ none) × Distinct (old ++ (k, v) ∷ []) new

abbrev pub AllEntries : Section → Type 0
AllEntries [] = Unit
AllEntries ((k, v) ∷ kvs) = IsEntry k v × AllEntries kvs

-- The named sections are read as they are written.
abbrev pub AllSections : List (Bytes × Section) → Type 0
AllSections [] = Unit
AllSections ((s, kvs) ∷ named) = IsName s × AllEntries kvs × Distinct [] kvs × AllSections named

module _ {V : Type 0} where
  insert_fresh :
      (k : Bytes) (v : V) (m : List (Bytes × V))
      → lookup k m ≡ none
      → insert k v m ≡ m ++ (k, v) ∷ []
  unfolding insert lookup
  insert_fresh k v [] h = refl
  insert_fresh k v ((j, w) ∷ m) h = ground (arith, insert_fresh k v m)

  insert_last :
      (k : Bytes) (v w : V) (m : List (Bytes × V))
      → lookup k m ≡ none
      → insert k v (m ++ (k, w) ∷ []) ≡ m ++ (k, v) ∷ []
  unfolding insert lookup
  insert_last k v w [] h = rw (equal_refl k) refl
  insert_last k v w ((j, x) ∷ m) h = ground (arith, insert_last k v w m)

  lookup_last :
      (k : Bytes) (w : V) (m : List (Bytes × V))
      → lookup k m ≡ none
      → lookup k (m ++ (k, w) ∷ []) ≡ some w
  unfolding lookup
  lookup_last k w [] h = rw (equal_refl k) refl
  lookup_last k w ((j, x) ∷ m) h = ground (arith, lookup_last k w m)

module _ (s : Bytes) (old : List (Bytes × Section)) (fresh : lookup s old ≡ none) where
  ensure_fresh : ensure s old ≡ old ++ (s, []) ∷ []
  unfolding ensure
  ensure_fresh = ap (λ o. insert s (or_new o) old) fresh ∙ insert_fresh s [] old fresh

  ensure_last : (kvs : Section) → ensure s (old ++ (s, kvs) ∷ []) ≡ old ++ (s, kvs) ∷ []
  unfolding ensure
  ensure_last kvs =
      ap (λ o. insert s (or_new o) (old ++ (s, kvs) ∷ [])) (lookup_last s kvs old fresh)
      ∙ insert_last s kvs kvs old fresh

  put_last :
      (kvs : Section) (k v : Bytes)
      → lookup k kvs ≡ none
      → put s k v (old ++ (s, kvs) ∷ []) ≡ old ++ (s, kvs ++ (k, v) ∷ []) ∷ []
  unfolding put
  put_last kvs k v h =
      ap (λ o. insert s (insert k v (or_new o)) (old ++ (s, kvs) ∷ []))
        (lookup_last s kvs old fresh)
      ∙ insert_last s (insert k v kvs) kvs old fresh
      ∙ ap (λ x. old ++ (s, x) ∷ []) (insert_fresh k v kvs h)

module _ (parse : Bytes → Parsed Ini) (name : Bytes) where
  -- The loop with these sections read, in section `s` and with no comment in front.
  abbrev reading : List (Bytes × Section) → Bytes → Reading
  reading secs s = record { cfg = container name secs; section = s; comment = [] }

  abbrev all_from : List Bytes → Parsed Reading → Parsed Reading
  all_from ls m = m >>= read_all parse name ls

  read_blank :
      (ls : List Bytes) (r : Reading) → read_all parse name ([] ∷ ls) r ≡ read_all parse name ls r
  unfolding read_all read_line
  read_blank ls r = refl

  -- One entry, in a section that is the last one once it is there.
  read_first :
      (s : Bytes) (old secs : List (Bytes × Section)) (kvs : Section) (k v : Bytes)
      → lookup s old ≡ none
      → ensure s secs ≡ old ++ (s, kvs) ∷ []
      → IsEntry k v
      → lookup k kvs ≡ none
      → read_line parse name (entry_line k v) (reading secs s)
        ≡ ok (reading (old ++ (s, kvs ++ (k, v) ∷ []) ∷ []) s)
  read_first s old secs kvs k v f e i h =
      read_line-entry parse name k v (reading secs s) i refl
      ∙ ap (λ m. ok (reading (put s k v m) s)) e
      ∙ ap (λ m. ok (reading m s)) (put_last s old f kvs k v h)

  read_entries :
      (s : Bytes) (old : List (Bytes × Section)) (kvs new : Section) (ls : List Bytes)
      → lookup s old ≡ none
      → AllEntries new
      → Distinct kvs new
      → read_all parse name (entry_lines new ++ ls) (reading (old ++ (s, kvs) ∷ []) s)
        ≡ read_all parse name ls (reading (old ++ (s, kvs ++ new) ∷ []) s)
  unfolding read_all
  read_entries s old kvs [] ls f a d = rw append-nil refl
  read_entries s old kvs ((k, v) ∷ new) ls f a d =
      ap (all_from (entry_lines new ++ ls))
        (read_first s old (old ++ (s, kvs) ∷ []) kvs k v f (ensure_last s old f kvs) a.0 d.0)
      ∙ read_entries s old (kvs ++ (k, v) ∷ []) new ls f a.1 d.1
      ∙ ap (λ x. read_all parse name ls (reading (old ++ (s, x) ∷ []) s))
          (append_assoc kvs ((k, v) ∷ []) new)

  read_sections :
      (named old : List (Bytes × Section)) (s : Bytes)
      → AllSections named
      → Distinct old named
      → (last : Bytes) × (read_all parse name (section_lines named) (reading old s)
          ≡ ok (reading (old ++ named) last))
  unfolding read_all
  read_sections [] old s a d = (s, rw append-nil refl)
  read_sections ((t, kvs) ∷ named) old s (n, entries, keys, a) (f, d) =
      let (last, e) = read_sections named (old ++ (t, kvs) ∷ []) t a d in
      (
        last,
        ap (all_from (entry_lines kvs ++ [] ∷ section_lines named)) (
              read_line-header parse name t (reading old s) n refl
              ∙ ap (λ m. ok (reading m t)) (ensure_fresh t old f))
            ∙ read_entries t old [] kvs ([] ∷ section_lines named) f entries keys
            ∙ read_blank (section_lines named) (reading (old ++ (t, kvs) ∷ []) t)
            ∙ e
            ∙ ap (λ m. ok (reading m last)) (append_assoc old ((t, kvs) ∷ []) named),
      )

  -- The lines of a container, read from the start
  pub read_file :
      (kvs : Section) (named : List (Bytes × Section))
      → AllEntries kvs
      → Distinct [] kvs
      → AllSections named
      → Distinct [] (with_default kvs named)
      → (last : Bytes) × (read_all parse name (file_lines kvs named) (start name)
          ≡ ok (reading (with_default kvs named) last))
  unfolding read_all
  read_file [] named e k a d = read_sections named [] default_section a d
  read_file ((k, v) ∷ kvs) named e q a (f, d) =
      let old = (default_section, (k, v) ∷ kvs) ∷ [] in
      let (last, r) = read_sections named old default_section a d in
      (
        last,
        ap (all_from (entry_lines kvs ++ [] ∷ section_lines named)) (
              read_first default_section [] [] [] k v f (ensure_fresh default_section [] f) e.0 q.0)
            ∙ read_entries default_section [] ((k, v) ∷ []) kvs ([] ∷ section_lines named) f e.1 q.1
            ∙ read_blank (section_lines named) (reading old default_section)
            ∙ r,
      )
