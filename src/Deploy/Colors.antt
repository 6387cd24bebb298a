-- ===== src/Deploy/Colors.antt =====
-- deploy/util.go: `ColorLogS` and `getColorLevel`, on the text that `fmt.Sprintf` makes. The time that is
-- put in front is an argument.
use thinkgo.Base.{
  ℕ, ◌≡◌, ◌∙◌, ◌==◌, ◌&&◌, refl, ap, Bool, true, false, if◌then◌else◌, Bytes, [], ◌∷◌, ◌++◌, Option,
  none, some, codes, drop, equal, to_upper, count, arith,
}

-- The colours of a terminal
abbrev pub gray : Bytes
gray = codes "90"

abbrev pub red : Bytes
red = codes "91"

abbrev pub green : Bytes
green = codes "92"

abbrev pub yellow : Bytes
yellow = codes "93"

abbrev pub blue : Bytes
blue = codes "94"

abbrev pub magenta : Bytes
magenta = codes "95"

abbrev pub start_color : Bytes → Bytes
start_color c = 27 ∷ b'[' ∷ c ++ b'm' ∷ []

abbrev pub end_color : Bytes
end_color = 27 ∷ codes "[0m"

abbrev pub in_color : Bytes → Bytes → Bytes
in_color c s = start_color c ++ (s ++ end_color)

-- `getColorLevel`
abbrev pub paint_level : Bytes → Bytes
paint_level l =
    if equal l (codes "INFO")
    then in_color blue l
    else if equal l (codes "TRAC")
    then in_color blue l
    else if equal l (codes "ERRO")
    then in_color red l
    else if equal l (codes "WARN")
    then in_color magenta l
    else if equal l (codes "SUCC")
    then in_color green l
    else l

unfoldable pub color_level : Bytes → Bytes
unfolding to_upper equal
color_level level = paint_level (to_upper level)

-- `strings.Replace` of a text of two bytes, everywhere
unfoldable pub replace_pair : ℕ → ℕ → Bytes → Bytes → Bytes
replace_pair a b new [] = []
replace_pair a b new (c ∷ []) = c ∷ []
replace_pair a b new (c ∷ d ∷ s) =
    let rest = replace_pair a b new s in
    let further = replace_pair a b new (d ∷ s) in
    if c == a && d == b then new ++ rest else c ∷ further

-- The six replacements, for the colours that are put in; none on Windows
abbrev pub mark_error : Bytes → Bytes → Bytes → Bytes
mark_error on off s =
    replace_pair b' ' b']' (off ++ b']' ∷ []) (replace_pair b'[' b' ' (b'[' ∷ on) s)

abbrev pub mark_path : Bytes → Bytes → Bytes → Bytes
mark_path on off s =
    replace_pair b' ' b')' (off ++ b')' ∷ []) (replace_pair b'(' b' ' (b'(' ∷ on) s)

abbrev pub mark_highlight : Bytes → Bytes → Bytes → Bytes
mark_highlight on off s = replace_pair b' ' b'#' off (replace_pair b'#' b' ' on s)

unfoldable pub mark_content : Bool → Bytes → Bytes
unfolding replace_pair
mark_content true s = mark_highlight [] [] (mark_path [] [] (mark_error [] [] s))
mark_content false s =
    mark_highlight (start_color gray) end_color
      (mark_path (start_color yellow) end_color (mark_error (start_color red) end_color s))

-- The text in front of the first "]" and behind it
abbrev pub onto_front : ℕ → Option (Bytes × Bytes) → Option (Bytes × Bytes)
onto_front c none = none
onto_front c (some (a, b)) = some (c ∷ a, b)

unfoldable pub cut_bracket : Bytes → Option (Bytes × Bytes)
cut_bracket [] = none
cut_bracket (c ∷ s) =
    let rest = onto_front c (cut_bracket s) in if c == b']' then some ([], s) else rest

abbrev pub level_text : Bool → Bytes → Bytes
level_text true level = level
level_text false level = color_level level

-- With "[" in front the text up to "]" is the level; without it, that text is dropped.
abbrev pub leveled : Bool → ℕ → Bytes → Option (Bytes × Bytes) → Bytes
leveled windows c log none = mark_content windows log
leveled windows c log (some (front, rest)) =
    let content = mark_content windows rest in
    if c == b'[' then b'[' ∷ level_text windows (drop 1 front) ++ (b']' ∷ content) else content

-- `ColorLogS`: `none` is the panic of `log[0]` on an empty text.
unfoldable pub color_log_s : Bool → Bytes → Bytes → Option Bytes
unfolding cut_bracket mark_content color_level
color_log_s windows time [] = none
color_log_s windows time (c ∷ s) = some (time ++ leveled windows c (c ∷ s) (cut_bracket (c ∷ s)))

-- Text with no brackets, parentheses and hashes has nothing to mark.
abbrev pub IsPlain : Bytes → Type 0
IsPlain s =
    (count b'[' s ≡ 0)
    × (count b']' s ≡ 0)
    × (count b'(' s ≡ 0)
    × (count b')' s ≡ 0)
    × (count b'#' s ≡ 0)

replace_pair-first : (a b : ℕ) (new s : Bytes) → count a s ≡ 0 → replace_pair a b new s ≡ s
unfolding replace_pair count
replace_pair-first a b new [] h = refl
replace_pair-first a b new (c ∷ []) h = refl
replace_pair-first a b new (c ∷ d ∷ s) h = ground (arith, h, replace_pair-first a b new (d ∷ s))

replace_pair-second : (a b : ℕ) (new s : Bytes) → count b s ≡ 0 → replace_pair a b new s ≡ s
unfolding replace_pair count
replace_pair-second a b new [] h = refl
replace_pair-second a b new (c ∷ []) h = refl
replace_pair-second a b new (c ∷ d ∷ s) h = ground (arith, h, replace_pair-second a b new (d ∷ s))

cut_bracket-append : (s t : Bytes) → count b']' s ≡ 0 → cut_bracket (s ++ b']' ∷ t) ≡ some (s, t)
unfolding cut_bracket count
cut_bracket-append [] t h = refl
cut_bracket-append (c ∷ s) t h = ground (arith, h, cut_bracket-append s t)

mark_error-plain : (on off s : Bytes) → IsPlain s → mark_error on off s ≡ s
mark_error-plain on off s p =
    ap (replace_pair b' ' b']' (off ++ b']' ∷ [])) (replace_pair-first b'[' b' ' (b'[' ∷ on) s p.0)
    ∙ replace_pair-second b' ' b']' (off ++ b']' ∷ []) s p.1

mark_path-plain : (on off s : Bytes) → IsPlain s → mark_path on off s ≡ s
mark_path-plain on off s p =
    ap (replace_pair b' ' b')' (off ++ b')' ∷ [])) (replace_pair-first b'(' b' ' (b'(' ∷ on) s p.2)
    ∙ replace_pair-second b' ' b')' (off ++ b')' ∷ []) s p.3

mark_highlight-plain : (on off s : Bytes) → IsPlain s → mark_highlight on off s ≡ s
mark_highlight-plain on off s p =
    ap (replace_pair b' ' b'#' off) (replace_pair-first b'#' b' ' on s p.4)
    ∙ replace_pair-second b' ' b'#' off s p.4

marks-plain :
    (e1 o1 e2 o2 e3 o3 s : Bytes)
    → IsPlain s
    → mark_highlight e3 o3 (mark_path e2 o2 (mark_error e1 o1 s)) ≡ s
marks-plain e1 o1 e2 o2 e3 o3 s p =
    ap (λ t. mark_highlight e3 o3 (mark_path e2 o2 t)) (mark_error-plain e1 o1 s p)
    ∙ (ap (mark_highlight e3 o3) (mark_path-plain e2 o2 s p) ∙ mark_highlight-plain e3 o3 s p)

mark_content-plain : (windows : Bool) (s : Bytes) → IsPlain s → mark_content windows s ≡ s
unfolding mark_content
mark_content-plain true s p = marks-plain [] [] [] [] [] [] s p
mark_content-plain false s p =
    marks-plain (start_color red) end_color (start_color yellow) end_color (start_color gray)
      end_color s p

-- A message with a level and content that has nothing to mark is printed whole: on Windows as it is,
-- elsewhere with the colour of its level.
pub color_log_s-level :
    (windows : Bool) (time level content : Bytes)
    → count b']' level ≡ 0
    → IsPlain content
    → color_log_s windows time (b'[' ∷ level ++ b']' ∷ content)
      ≡ some (time ++ (b'[' ∷ level_text windows level ++ b']' ∷ content))
unfolding color_log_s
color_log_s-level windows time level content h p =
    let log = b'[' ∷ level ++ b']' ∷ content in
    ap (λ o. some (time ++ leveled windows b'[' log (onto_front b'[' o)))
      (cut_bracket-append level content h)
    ∙ ap (λ t. some (time ++ (b'[' ∷ level_text windows level ++ b']' ∷ t)))
        (mark_content-plain windows content p)
