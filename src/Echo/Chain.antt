-- ===== src/Echo/Chain.antt =====
-- core/echo.go: middleware and handlers. A handler maps the state of the request, its context with all
-- that hangs on it, to a new state and an error, `none` for nil. Handlers of net/http are parameters:
-- functions on that state.
use thinkgo.Base.{
  ◌≡◌, refl, sym, ap, ◌∙◌, map, append-nil, append_assoc, Option-cases, inl, inr, Bool,
  if◌then◌else◌, List, [], ◌∷◌, ◌++◌, Option, none, some,
}

module _ (S Err : Type 0) where
  abbrev pub HandlerFunc : Type 0
  HandlerFunc = S → S × Option Err

  abbrev pub MiddlewareFunc : Type 0
  MiddlewareFunc = HandlerFunc → HandlerFunc

  -- The dynamic types that `wrapMiddleware` tells apart. A function from http.Handler to http.Handler
  -- sees the inner handler as a change of the request's state and of the variable `err`.
  pub data Middleware : Type 0 where
    middleware_func : MiddlewareFunc → Middleware
    handler_func : HandlerFunc → Middleware
    http_middleware :
        ((S × Option Err → S × Option Err) → S × Option Err → S × Option Err) → Middleware
    http_handler : (S → S) → Middleware
    unknown : Middleware

  -- The dynamic types that `wrapHandler` tells apart
  pub data HandlerValue : Type 0 where
    echo_handler : HandlerFunc → HandlerValue
    net_handler : (S → S) → HandlerValue
    unknown_handler : HandlerValue

module _ {S Err : Type 0} (committed : S → Bool) where
  -- `wrapHandlerFuncMW`
  unfoldable pub wrap_handler_func : HandlerFunc S Err → MiddlewareFunc S Err
  wrap_handler_func m next s =
      let (s', err) = m s in elim err [ some e ↦ (s', some e) | none ↦ next s' ]

  -- `wrapHTTPHandlerFuncMW`
  unfoldable pub wrap_http_handler : (S → S) → MiddlewareFunc S Err
  wrap_http_handler m next s = next (if committed s then s else m s)

  -- `wrapMiddleware`: `none` is the panic "unknown middleware".
  unfoldable pub wrap_middleware : Middleware S Err → Option (MiddlewareFunc S Err)
  unfolding wrap_handler_func wrap_http_handler
  wrap_middleware (middleware_func m) = some m
  wrap_middleware (handler_func m) = some (wrap_handler_func m)
  wrap_middleware (http_middleware m) = some (λ h s. m (λ t. h t.0) (s, none))
  wrap_middleware (http_handler m) = some (wrap_http_handler m)
  wrap_middleware unknown = none

  -- `Use`: the middleware of the instance with the wrapped ones behind it
  unfoldable pub add_middleware :
      List (MiddlewareFunc S Err) → List (Middleware S Err) → Option (List (MiddlewareFunc S Err))
  unfolding wrap_middleware
  add_middleware old [] = some old
  add_middleware old (m ∷ ms) = elim (wrap_middleware m) [
    | none ↦ none
    | some f ↦ add_middleware (old ++ f ∷ []) ms
  ]

module _ {S Err : Type 0} where
  -- The loop of `ServeHTTP` from the last middleware to the first: the list is walked from its end.
  unfoldable pub wrap_all : List (MiddlewareFunc S Err) → HandlerFunc S Err → HandlerFunc S Err
  wrap_all [] h = h
  wrap_all (m ∷ ms) h = m (wrap_all ms h)

  -- `wrapHandler`: `none` is the panic "unknown handler".
  unfoldable pub wrap_handler : HandlerValue S Err → Option (HandlerFunc S Err)
  wrap_handler (echo_handler h) = some h
  wrap_handler (net_handler h) = some (λ s. (h s, none))
  wrap_handler unknown_handler = none

  -- The handlers run one after another, up to the first that returns an error.
  unfoldable pub sequence : List (HandlerFunc S Err) → HandlerFunc S Err → HandlerFunc S Err
  sequence [] h s = h s
  sequence (m ∷ ms) h s = elim (m s).1 [ some e ↦ ((m s).0, some e) | none ↦ sequence ms h (m s).0 ]

module _ {S Err : Type 0} (committed : S → Bool) where
  abbrev wrapped : List (HandlerFunc S Err) → List (MiddlewareFunc S Err)
  wrapped [] = []
  wrapped (m ∷ ms) = wrap_handler_func committed m ∷ wrapped ms

  add_middleware-wrapped :
      (old : List (MiddlewareFunc S Err)) (ms : List (HandlerFunc S Err))
      → add_middleware committed old (map handler_func ms) ≡ some (old ++ wrapped ms)
  unfolding add_middleware
  add_middleware-wrapped old [] = ap some (sym (append-nil old))
  add_middleware-wrapped old (m ∷ ms) =
      add_middleware-wrapped (old ++ wrap_handler_func committed m ∷ []) ms
      ∙ ap some (append_assoc old (wrap_handler_func committed m ∷ []) (wrapped ms))

  wrap_all-wrapped :
      (ms : List (HandlerFunc S Err)) (h : HandlerFunc S Err) (s : S)
      → wrap_all (wrapped ms) h s ≡ sequence ms h s
  unfolding wrap_all sequence wrap_handler_func
  wrap_all-wrapped [] h s = refl
  wrap_all-wrapped (m ∷ ms) h s = elim (Option-cases (m s).1) [
    | inl e ↦ rw (e, wrap_handler_func) (wrap_all-wrapped ms h (m s).0)
    | inr (x, e) ↦ rw (e, wrap_handler_func)
  ]

  -- Handlers given to `Use` in turn run in that order in front of the handler of the route; the first
  -- that returns an error ends the chain with it, and what stands behind it does not run.
  pub use-sequence :
      (ms : List (HandlerFunc S Err))
      → (fs : List (MiddlewareFunc S Err)) × (add_middleware committed [] (map handler_func ms)
          ≡ some fs)
        × ((h : HandlerFunc S Err) (s : S) → wrap_all fs h s ≡ sequence ms h s)
  use-sequence ms = (wrapped ms, add_middleware-wrapped [] ms, wrap_all-wrapped ms)
