-- ===== src/Echo/Serve.antt =====
-- core/echo.go: `ServeHTTP`, without the hook, which Think/Hook has, and the error handlers. The state
-- of the request, what the handlers do to it and the Echo instances' middleware are parameters.
use thinkgo.Base.{
  ℕ, zero, suc, ◌≡◌, ◌≢◌, refl, sym, ap, ◌∙◌, Bool, if◌then◌else◌, Bytes, List, [], ◌∷◌, ◌++◌,
  Option, none, some, codes, equal, equal_iff, trim_right, cons_trimmed, repeat, arith,
}
use thinkgo.Router.Method.{Method, find_handler}
use thinkgo.Router.Tree.{Node, info}
use thinkgo.Router.Find.{
  Handler, registered, Params, Run, done, panic, out_of_fuel, Found, found_at, find, finish, run,
  size, step_on, initial, at_end, conclude,
}
use thinkgo.Router.Terminates.{size_pos}
use thinkgo.Echo.Chain.{HandlerFunc, MiddlewareFunc, wrap_all}

-- `if r.URL.Path != "/" { r.URL.Path = strings.TrimRight(r.URL.Path, "/") }`
unfoldable pub served_path : Bytes → Bytes
unfolding equal trim_right
served_path path = if equal path (codes "/") then path else trim_right b'/' path

-- What `defaultHTTPErrorHandler` sends: the error's code and message if it is an `HTTPError`, in debug
-- mode its text; nothing where the response is committed.
pub data Err : Type 0 where
  http_error : ℕ → Bytes → Err
  other_error : Bytes → Err

abbrev pub status_internal_server_error : ℕ
status_internal_server_error = 500

unfoldable pub default_http_error_handler : Bool → Bool → Err → Option (Bytes × ℕ)
default_http_error_handler debug committed (http_error code message) =
    if committed then none else some (message, code)
default_http_error_handler debug committed (other_error text) =
    if committed
    then none
    else some (if debug then text else codes "Internal Server Error", status_internal_server_error)

module _ {H E S : Type 0} (act : Handler H → HandlerFunc S Err)
    (middleware : E → List (MiddlewareFunc S Err)) (on_error : E → Err → S → S)
    (enter : E → Params → S) where
  -- What follows `Find`: the chain of the instance found around the handler found, and its error
  -- handler.
  unfoldable pub respond : Found H E → S
  unfolding wrap_all
  respond f =
      let (s, err) = wrap_all (middleware f.echo) (act f.handler) (enter f.echo f.context) in
      elim err [ some x ↦ on_error f.echo x s | none ↦ s ]

  -- `ServeHTTP` for a router's tree and its own instance
  unfoldable pub serve_http : Node H E → E → Method → Bytes → Params → Run S
  unfolding respond served_path find
  serve_http tree e m path ctx = elim (find tree e m (served_path path) ctx) [
    | done f ↦ done (respond f)
    | panic ↦ panic
    | out_of_fuel ↦ out_of_fuel
  ]

trim_right-slash : (p : Bytes) → trim_right b'/' (p ++ b'/' ∷ []) ≡ trim_right b'/' p
unfolding trim_right
trim_right-slash [] = refl
trim_right-slash (c ∷ p) = ap (cons_trimmed b'/' c) (trim_right-slash p)

served_path-trim_right : (p : Bytes) → p ≢ codes "/" → served_path p ≡ trim_right b'/' p
unfolding served_path
served_path-trim_right p h = ground (arith, equal_iff p (codes "/"))

slash-ne : (c : ℕ) (p : Bytes) → ((c ∷ p) ++ b'/' ∷ []) ≢ codes "/"
slash-ne c [] = ground arith
slash-ne c (d ∷ p) = ground arith

-- A slash behind a path makes no difference to the path that is looked up, but for the empty path and
-- the path "/" itself.
pub served_path-slash :
    (p : Bytes) → p ≢ [] → p ≢ codes "/" → served_path (p ++ b'/' ∷ []) ≡ served_path p
served_path-slash [] ne h = absurd (ne refl)
served_path-slash (c ∷ p) ne h =
    served_path-trim_right ((c ∷ p) ++ b'/' ∷ []) (slash-ne c p)
    ∙ trim_right-slash (c ∷ p)
    ∙ sym (served_path-trim_right (c ∷ p) h)

trim_right-slashes : (n : ℕ) → trim_right b'/' (repeat (codes "/") n) ≡ []
unfolding trim_right repeat
trim_right-slashes zero = refl
trim_right-slashes (suc n) = rw (trim_right-slashes n)

served_path-slashes : (n : ℕ) → served_path (repeat (codes "/") (suc (suc n))) ≡ []
unfolding repeat
served_path-slashes n =
    served_path-trim_right (b'/' ∷ b'/' ∷ repeat (codes "/") n) (ground arith)
    ∙ trim_right-slashes (suc (suc n))

run-nil :
    {H E : Type 0} (tree : Node H E) (ctx : Params)
    → run (size tree) (initial tree [] ctx) ≡ done (at_end tree ctx.pvalues)
unfolding run step_on
run-nil tree ctx = rw (size_pos tree)

-- A path of two slashes or more is looked up as the empty path, and that ends at the root node at once:
-- whatever prefix the root has, its handler for the method is the answer.
pub find-slashes :
    {H E : Type 0} (n : ℕ) (tree : Node H E) (e : E) (m : Method) (ctx : Params) (h : H)
    → find_handler m (info tree).handlers ≡ some h
    → find tree e m (served_path (repeat (codes "/") (suc (suc n)))) ctx
      ≡ done (found_at e tree (registered h) ctx.pvalues)
unfolding find finish
find-slashes n tree e m ctx h f =
    ap (λ p. find tree e m p ctx) (served_path-slashes n)
    ∙ ap (conclude e m ctx) (run-nil tree ctx)
    ∙ rw (f, finish)
