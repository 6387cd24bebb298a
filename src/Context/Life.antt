-- ===== src/Context/Life.antt =====
-- core/context.go: the life of a context, from `NewContext` over the requests that the pool gives it,
-- with `Query`, `Form` and `Bind`. Requests, parsed queries and the calls of net/http and net/url on them
-- are parameters.
use thinkgo.Base.{
  ℕ, suc, zero, ◌≡◌, refl, ◌∙◌, ap, false, map, Bytes, List, [], ◌∷◌, Option, none, some,
}
use thinkgo.Router.Find.{Params}
use thinkgo.Response.Defs.{Response, reset}
use thinkgo.Context.Store.{Store, get}

-- `make([]string, n)`
unfoldable pub make : ℕ → List Bytes
make zero = []
make (suc n) = [] ∷ make n

-- The fields but the socket; a nil request or query is `none`.
pub record Context (R Q V E W : Type 0) : Type 0 where
  pub request : Option R
  pub response : Response W
  pub params : Params
  pub query : Option Q
  pub store : Store V
  pub echo : E
  pub layout : Bytes
  pub sections : List (Bytes × Bytes)

-- The fields that `Find` writes, in a new context
abbrev pub new_params : ℕ → Params
new_params max_param = record { path = []; pnames = []; pvalues = make max_param }

-- `NewContext`, where the counter of the instance says `max_param`
abbrev pub new_context : {R Q V E W : Type 0} → Option R → Response W → E → ℕ → Context R Q V E W
new_context req res e max_param = record {
  request = req;
  response = res;
  params = new_params max_param;
  query = none;
  store = some [];
  echo = e;
  layout = [];
  sections = [];
}

module _ {R Q V E W : Type 0} where
  -- `reset`
  unfoldable pub reset_context : R → W → E → Context R Q V E W → Context R Q V E W
  unfolding reset
  reset_context r w e c = record c {
    request = some r;
    response = reset w c.response;
    query = none;
    store = none;
    echo = e;
  }

  -- What a middleware of net/http does to the context before the handler behind it
  abbrev pub replace_request : W → R → Context R Q V E W → Context R Q V E W
  replace_request w r c = record c { request = some r; response = record c.response { writer = w } }

  module _ (parse : Option R → Q) (value : Q → Bytes → Bytes) where
    -- `Query`, which keeps what it parsed; `parse` is `URL.Query` of the request.
    unfoldable pub query : Bytes → Context R Q V E W → Bytes × Context R Q V E W
    query name c =
        let q : Q = elim c.query [ none ↦ parse c.request | some q ↦ q ] in
        (value q name, record c { query = some q })

    -- Several calls of `Query`, one after the other
    unfoldable pub queries : List Bytes → Context R Q V E W → List Bytes
    unfolding query
    queries [] c = []
    queries (name ∷ names) c = let (v, c') = query name c in v ∷ queries names c'

    -- The query that is kept is that of the request.
    abbrev pub IsFresh : Context R Q V E W → Type 0
    IsFresh c = (q : Q) → c.query ≡ some q → q ≡ parse c.request

    query_kept :
        (c : Context R Q V E W) (name : Bytes)
        → IsFresh c
        → (o : Option Q) → c.query ≡ o
        → query name c ≡ (value (parse c.request) name, record c { query = some (parse c.request) })
    unfolding query
    query_kept c name f none e = rw (e, query) refl
    query_kept c name f (some q) e =
        rw (e, query) (ap (λ x. (value x name, record c { query = some x })) (f q e))

    -- As long as the request stays, the queries answer from it.
    queries-map :
        (names : List Bytes) (c : Context R Q V E W)
        → IsFresh c
        → queries names c ≡ map (value (parse c.request)) names
    unfolding queries
    queries-map [] c f = refl
    queries-map (name ∷ names) c f =
        let kept = query_kept c name f c.query refl in
        let c' : Context R Q V E W = record c { query = some (parse c.request) } in
        ap (λ x. x.0 ∷ queries names x.1) kept
        ∙ ap (λ l. value (parse c.request) name ∷ l) (queries-map names c' (λ q e. cc e))

    -- Whatever request a context of the pool served before, after `reset` any calls of `Query` answer from the
    -- new request, the store is empty, and the response is one on the new writer that is not committed and
    -- has status 200 and size 0.
    pub queries-reset :
        (names : List Bytes) (k : Bytes) (r : R) (w : W) (e : E) (c : Context R Q V E W)
        → (queries names (reset_context r w e c) ≡ map (value (parse (some r))) names)
          × (get k (reset_context r w e c).store ≡ none)
          × ((reset_context r w e c).response
              ≡ record { writer = w; status = 200; size = 0; committed = false })
    unfolding reset_context reset get
    queries-reset names k r w e c =
        (queries-map names (reset_context r w e c) (λ q h. absurd (cc h)), refl, refl)

    -- A request that a middleware puts in place is not seen by `Query` where that was called before: it
    -- answers from the old request.
    pub queries-replace_request :
        (name name' : Bytes) (c : Context R Q V E W) (w : W) (r : R) (q : Q)
        → c.query ≡ some q
        → queries (name' ∷ []) (replace_request w r (query name c).1) ≡ value q name' ∷ []
    unfolding queries query
    queries-replace_request name name' c w r q h = rw (h, query) refl

  -- `Form`: `FormValue` of the request
  abbrev pub form : (Option R → Bytes → Bytes) → Bytes → Context R Q V E W → Bytes
  form form_value name c = form_value c.request name

  -- `Bind`: the binder of the instance, on the request
  abbrev pub bind :
      {A Err : Type 0}
      → (E → Option R → A → A × Option Err)
      → A
      → Context R Q V E W
      → A × Option Err
  bind binder a c = binder c.echo c.request a
