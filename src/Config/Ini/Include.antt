-- ===== src/Config/Ini/Include.antt =====
-- The recursion of `parseFile` in core/config/ini.go over files that include one another.
use thinkgo.Base.{
  ℕ, zero, suc, ◌<◌, ◌≡◌, ◌≢◌, refl, sym, subst, Bytes, List, [], ◌∷◌, ◌++◌, Option, none, some,
  arith,
}
use thinkgo.Config.Ini.Syntax.{trim_space, cut_at, header_of, comment_of, strip_bom}
use thinkgo.Config.Ini.Parse.{
  Ini, Parsed, ok, not_opened, bad_line, out_of_fuel, ◌>>=◌, Reading, in_section, read_include,
  read_entry, read_other, read_trimmed, read_line, read_all, include_of, parse_text, parse_file,
  start, merge,
}

-- The file that a line of a file includes, if it is no comment, no header and no pair.
abbrev entry_included : Bytes → Bytes × Option Bytes → Option Bytes
entry_included name (k, some v) = none
entry_included name (k, none) = include_of name k

abbrev other_included : Bytes → Bytes → Option Bytes → Option Bytes
other_included name line (some text) = none
other_included name line none = entry_included name (cut_at b'=' line)

abbrev trimmed_included : Bytes → Bytes → Option Bytes → Option Bytes
trimmed_included name line (some text) = none
trimmed_included name line none = other_included name line (header_of line)

abbrev pub included : Bytes → Bytes → Option Bytes
included name [] = none
included name (c ∷ s) =
    let line = trim_space (c ∷ s) in trimmed_included name line (comment_of line)

module _ (parse : Bytes → Parsed Ini) (name : Bytes) where
  -- The calls for the files that a line includes end.
  abbrev Calls : Option Bytes → Type 0
  Calls none = Unit
  Calls (some other) = parse other ≢ out_of_fuel

  abbrev AllCalls : List Bytes → Type 0
  AllCalls [] = Unit
  AllCalls (l ∷ ls) = Calls (included name l) × AllCalls ls

module _ (read_lines : Bytes → List Bytes) (files : Bytes → Option Bytes) (rank : Bytes → ℕ) where
  abbrev Lower : Bytes → Option Bytes → Type 0
  Lower name none = Unit
  Lower name (some other) = rank other < rank name

  -- Every file that one of the lines includes has a lower rank.
  abbrev pub Descends : Bytes → List Bytes → Type 0
  Descends name [] = Unit
  Descends name (l ∷ ls) = Lower name (included name l) × Descends name ls

-- The parse does not give a container.
abbrev pub Fails : {A : Type 0} → Parsed A → Type 0
Fails {A} m = (a : A) → m ≢ ok a

>>=-Fails : {A B : Type 0} (m : Parsed A) (f : A → Parsed B) → Fails m → Fails (m >>= f)
>>=-Fails (ok a) f h b = absurd (h a refl)
>>=-Fails (not_opened n) f h b = ground arith
>>=-Fails (bad_line l) f h b = ground arith
>>=-Fails out_of_fuel f h b = ground arith

>>=-AllFail :
    {A B : Type 0} (m : Parsed A) (f : A → Parsed B) → ((a : A) → Fails (f a)) → Fails (m >>= f)
>>=-AllFail (ok a) f h b = h a b
>>=-AllFail (not_opened n) f h b = ground arith
>>=-AllFail (bad_line l) f h b = ground arith
>>=-AllFail out_of_fuel f h b = ground arith

module _ (parse : Bytes → Parsed Ini) (name other : Bytes) (fails : Fails (parse other)) where
  read_include-Fails :
      (line : Bytes) (r : Reading) (o : Option Bytes)
      → o ≡ some other
      → Fails (read_include parse line r o)
  read_include-Fails line r o i =
      subst (λ z. Fails (read_include parse line r z)) (sym i)
        (>>=-Fails (parse other) (λ c. ok (record r { cfg = merge c r.cfg })) fails)

  read_entry-Fails :
      (line : Bytes) (r : Reading) (e : Bytes × Option Bytes)
      → entry_included name e ≡ some other
      → Fails (read_entry parse name line r e)
  read_entry-Fails line r (k, some v) i = cc
  read_entry-Fails line r (k, none) i = read_include-Fails line r (include_of name k) i

  read_other-Fails :
      (line : Bytes) (r : Reading) (o : Option Bytes)
      → other_included name line o ≡ some other
      → Fails (read_other parse name line r o)
  read_other-Fails line r (some text) i = cc
  read_other-Fails line r none i = read_entry-Fails line (in_section r) (cut_at b'=' line) i

  read_trimmed-Fails :
      (line : Bytes) (r : Reading) (o : Option Bytes)
      → trimmed_included name line o ≡ some other
      → Fails (read_trimmed parse name line r o)
  read_trimmed-Fails line r (some text) i = cc
  read_trimmed-Fails line r none i = read_other-Fails line r (header_of line) i

  read_line-Fails :
      (l : Bytes) (r : Reading) → included name l ≡ some other → Fails (read_line parse name l r)
  unfolding read_line
  read_line-Fails [] r i = cc
  read_line-Fails (c ∷ s) r i =
      read_trimmed-Fails (trim_space (c ∷ s)) r (comment_of (trim_space (c ∷ s))) i

  read_all-Fails :
      (before rest : List Bytes) (line : Bytes) (r : Reading)
      → included name line ≡ some other
      → Fails (read_all parse name (before ++ line ∷ rest) r)
  unfolding read_all
  read_all-Fails [] rest line r i =
      >>=-Fails (read_line parse name line r) (read_all parse name rest) (read_line-Fails line r i)
  read_all-Fails (l ∷ before) rest line r i =
      >>=-AllFail (read_line parse name l r) (read_all parse name (before ++ line ∷ rest))
        (λ r'. read_all-Fails before rest line r' i)

module _ (read_lines : Bytes → List Bytes) (files : Bytes → Option Bytes) where
  -- A file of which any line includes the file itself is never read to a container, however many files
  -- may be open at once.
  pub parse_file-itself :
      (name text line : Bytes) (before rest : List Bytes)
      → files name ≡ some text
      → read_lines (strip_bom text) ≡ before ++ line ∷ rest
      → included name line ≡ some name
      → (fuel : ℕ) → Fails (parse_file read_lines files fuel name)
  unfolding parse_file
  parse_file-itself name text line before rest f l i zero = λ b. ground arith
  parse_file-itself name text line before rest f l i (suc fuel) =
      let parse = parse_file read_lines files fuel in
      let ih = parse_file-itself name text line before rest f l i fuel in
      let lines : Fails (read_all parse name (read_lines (strip_bom text)) (start name)) =
        subst (λ z. Fails (read_all parse name z (start name))) (sym l)
          (read_all-Fails parse name name ih before rest line (start name) i) in
      subst (λ z. Fails (parse_text read_lines parse name z)) (sym f)
        (>>=-Fails (read_all parse name (read_lines (strip_bom text)) (start name)) (λ r. ok r.cfg)
          lines)
