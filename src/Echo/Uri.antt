-- ===== src/Echo/Uri.antt =====
-- core/echo.go: `URI` and `URL`. The parameters come as `fmt.Sprintf` prints them.
use thinkgo.Base.{
  ◌==◌, ◌≡◌, ◌≢◌, Bool, true, false, if◌then◌else◌, Bytes, List, [], ◌∷◌, ◌++◌, Option, none, some,
  equal, count,
}
use thinkgo.Echo.Register.{Route}

-- The loop over a route's path: while a name is read, the flag, bytes up to a slash are left out. With
-- no parameter left the rest is copied.
unfoldable pub fill : Bool → List Bytes → Bytes → Bytes
fill reading params [] = []
fill true params (c ∷ s) =
    let next = fill false params s in
    let further = fill true params s in if c == b'/' then c ∷ next else further
fill false [] (c ∷ s) = c ∷ fill false [] s
fill false (p ∷ params) (c ∷ s) =
    let named = fill true params s in
    let further = fill false (p ∷ params) s in if c == b':' then p ++ named else c ∷ further

-- The loop over the routes: the first of the handler's name
unfoldable pub route_of : Bytes → List Route → Option Route
unfolding equal
route_of name [] = none
route_of name (r ∷ rs) =
    let rest = route_of name rs in if equal r.handler name then some r else rest

abbrev pub filled : List Bytes → Option Route → Bytes
filled params none = []
filled params (some r) = fill false params r.path

-- `URI`
unfoldable pub uri : Bytes → List Bytes → List Route → Bytes
unfolding fill route_of
uri name params routes = filled params (route_of name routes)

-- A piece of a path: what stands in front of a parameter, or a parameter with its name.
pub data Piece : Type 0 where
  literal placeholder : Bytes → Piece

-- The path that the pieces make, each behind a slash
unfoldable pub path_of : List Piece → Bytes
path_of [] = []
path_of (literal s ∷ ps) = b'/' ∷ (s ++ path_of ps)
path_of (placeholder n ∷ ps) = b'/' ∷ b':' ∷ (n ++ path_of ps)

-- The path with the parameters in the places of the names, in order; where none is left the name stays.
unfoldable pub put_in : List Bytes → List Piece → Bytes
put_in params [] = []
put_in params (literal s ∷ ps) = b'/' ∷ (s ++ put_in params ps)
put_in [] (placeholder n ∷ ps) = b'/' ∷ b':' ∷ (n ++ put_in [] ps)
put_in (p ∷ params) (placeholder n ∷ ps) = b'/' ∷ (p ++ put_in params ps)

-- Texts have no colon, and names no slash.
abbrev pub AllPieces : List Piece → Type 0
AllPieces [] = Unit
AllPieces (literal s ∷ ps) = (count b':' s ≡ 0) × AllPieces ps
AllPieces (placeholder n ∷ ps) = (count b'/' n ≡ 0) × AllPieces ps

-- None of the routes is of the handler.
abbrev pub AllOther : Bytes → List Route → Type 0
AllOther name [] = Unit
AllOther name (r ∷ rs) = (r.handler ≢ name) × AllOther name rs
