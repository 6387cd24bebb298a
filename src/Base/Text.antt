-- ===== src/Base/Text.antt =====
-- The functions of Go's `strings` and `path` packages that the program calls, over bytes. Letters are
-- the ASCII ones.
use Prim.Native.Nat.{ℕ, zero, suc, ◌+◌, ◌-◌}
use mathlib.Core.Path.{◌≡◌}
use mathlib.Core.Bool.{Bool, true, false, ◌&&◌, ◌||◌}
use mathlib.Core.List.{List, [], ◌∷◌, ◌++◌, reverse}
use mathlib.Core.Option.{none, some}
use thinkgo.Base.Tests.{Bytes, ◌==◌, leb, equal, if◌then◌else◌}
use thinkgo.Base.Lists.{codes, strip}

abbrev pub within : ℕ → ℕ → ℕ → Bool
within lo hi c = leb lo c && leb c hi

abbrev pub is_upper : ℕ → Bool
is_upper = within b'A' b'Z'

abbrev pub is_lower : ℕ → Bool
is_lower = within b'a' b'z'

abbrev pub lower_byte : ℕ → ℕ
lower_byte c = if is_upper c then c + 32 else c

-- A text of ASCII: on such texts the changes of case and the white space here are those of Go, which also
-- knows the letters and the spaces of Unicode.
abbrev pub is_ascii : Bytes → Bool
is_ascii [] = true
is_ascii (c ∷ s) = leb c 127 && is_ascii s

-- All of a list of texts are.
abbrev pub AllAscii : List Bytes → Type 0
AllAscii [] = Unit
AllAscii (s ∷ ss) = (is_ascii s ≡ true) × AllAscii ss

-- `strings.ToLower`
unfoldable pub to_lower : Bytes → Bytes
to_lower [] = []
to_lower (c ∷ s) = lower_byte c ∷ to_lower s

abbrev pub upper_byte : ℕ → ℕ
upper_byte c = if is_lower c then c - 32 else c

-- `strings.ToUpper`
unfoldable pub to_upper : Bytes → Bytes
to_upper [] = []
to_upper (c ∷ s) = upper_byte c ∷ to_upper s

-- `strings.HasPrefix(s, p)`
unfoldable pub has_prefix : Bytes → Bytes → Bool
unfolding strip
has_prefix s p = elim (strip p s) [ none ↦ false | some _ ↦ true ]

-- `strings.Contains(s, p)`
unfoldable pub contains : Bytes → Bytes → Bool
unfolding has_prefix
contains [] p = has_prefix [] p
contains (c ∷ s) p = has_prefix (c ∷ s) p || contains s p

-- `strings.HasSuffix(s, p)`
unfoldable pub has_suffix : Bytes → Bytes → Bool
unfolding has_prefix
has_suffix s p = has_prefix (reverse s) (reverse p)

-- `strings.Replace` of each backslash by a slash
unfoldable pub slashes : Bytes → Bytes
slashes [] = []
slashes (c ∷ s) = (if c == b'\\' then b'/' else c) ∷ slashes s

-- `strings.TrimPrefix(s, p)`
unfoldable pub trim_prefix : Bytes → Bytes → Bytes
unfolding strip
trim_prefix s p = elim (strip p s) [ none ↦ s | some rest ↦ rest ]

-- `strings.TrimSuffix(s, p)`
unfoldable pub trim_suffix : Bytes → Bytes → Bytes
unfolding strip
trim_suffix s p = elim (strip (reverse p) (reverse s)) [ none ↦ s | some rest ↦ reverse rest ]

-- `strings.TrimLeft` and `strings.TrimRight`, for one byte to cut
unfoldable pub trim_left : ℕ → Bytes → Bytes
trim_left b [] = []
trim_left b (c ∷ s) = if c == b then trim_left b s else c ∷ s

-- What ends a text is kept with the rest, unless the rest is nothing but the byte.
abbrev pub cons_trimmed : ℕ → ℕ → Bytes → Bytes
cons_trimmed b c [] = if c == b then [] else c ∷ []
cons_trimmed b c (d ∷ s) = c ∷ d ∷ s

unfoldable pub trim_right : ℕ → Bytes → Bytes
trim_right b [] = []
trim_right b (c ∷ s) = cons_trimmed b c (trim_right b s)

-- `strings.Trim`
abbrev pub trim : ℕ → Bytes → Bytes
trim b s = trim_right b (trim_left b s)

-- The text before the first separator, if there is one, in front of its rest.
abbrev pub onto_first : ℕ → List Bytes → List Bytes
onto_first c [] = (c ∷ []) ∷ []
onto_first c (w ∷ ws) = (c ∷ w) ∷ ws

-- `strings.Split(s, sep)` for a separator of one byte
unfoldable pub split_at : ℕ → Bytes → List Bytes
split_at b [] = [] ∷ []
split_at b (c ∷ s) = let rest = split_at b s in if c == b then [] ∷ rest else onto_first c rest

-- `strings.Split(s, sep)` for a separator of two bytes
unfoldable pub split_pair : ℕ → ℕ → Bytes → List Bytes
split_pair a b [] = [] ∷ []
split_pair a b (c ∷ []) = (c ∷ []) ∷ []
split_pair a b (c ∷ d ∷ s) =
    let rest = split_pair a b s in
    let further = split_pair a b (d ∷ s) in
    if c == a && d == b then [] ∷ rest else onto_first c further

-- `strings.Join(ws, sep)` for a separator of one byte
unfoldable pub join : ℕ → List Bytes → Bytes
join b [] = []
join b (w ∷ []) = w
join b (w ∷ v ∷ ws) = w ++ (b ∷ join b (v ∷ ws))

-- `strings.Count(s, b)` for one byte
unfoldable pub count : ℕ → Bytes → ℕ
count b [] = 0
count b (c ∷ s) = (if c == b then 1 else 0) + count b s

-- `strings.Repeat`
unfoldable pub repeat : Bytes → ℕ → Bytes
repeat s zero = []
repeat s (suc n) = s ++ repeat s n

-- What `path.Clean` does with a segment, on those that it keeps, the last one first: "." and empty ones
-- are dropped, ".." takes one back, at the root nothing.
unfoldable pub step_back : Bool → List Bytes → List Bytes
step_back rooted [] = if rooted then [] else codes ".." ∷ []
step_back rooted (v ∷ kept) = if equal v (codes "..") then codes ".." ∷ v ∷ kept else kept

unfoldable pub clean_step : Bool → List Bytes → Bytes → List Bytes
unfolding step_back equal
clean_step rooted kept w =
    if equal w [] || equal w (codes ".")
    then kept
    else if equal w (codes "..")
    then step_back rooted kept
    else w ∷ kept

unfoldable pub clean_segments : Bool → List Bytes → List Bytes → List Bytes
unfolding clean_step
clean_segments rooted kept [] = kept
clean_segments rooted kept (w ∷ ws) = clean_segments rooted (clean_step rooted kept w) ws

abbrev pub or_dot : Bytes → Bytes
or_dot [] = codes "."
or_dot (c ∷ s) = c ∷ s

-- `path.Clean`
unfoldable pub clean : Bytes → Bytes
unfolding clean_segments split_at join
clean [] = codes "."
clean (c ∷ s) =
    let rooted = c == b'/' in
    let kept = reverse (clean_segments rooted [] (split_at b'/' (c ∷ s))) in
    if rooted then b'/' ∷ join b'/' kept else or_dot (join b'/' kept)

-- `path.Join`
unfoldable pub join_path : List Bytes → Bytes
unfolding clean join
join_path [] = []
join_path ([] ∷ ws) = join_path ws
join_path ((c ∷ w) ∷ ws) = clean (join b'/' ((c ∷ w) ∷ ws))
