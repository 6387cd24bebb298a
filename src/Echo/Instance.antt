-- ===== src/Echo/Instance.antt =====
-- core/echo.go: the instance with `New`, its setters and `Blackfile`, `HTTPError`, `SetFileSystem`, the
-- handler of `WebSocket`, and the start of a server. Loggers, binders, renderers, hooks and error handlers
-- are the values of types; the servers of net/http and http2 are parameters.
use thinkgo.Base.{
  ℕ, ◌≡◌, refl, ◌∙◌, Bool, true, false, ◌||◌, Bytes, List, [], ◌∷◌, Option, none, some, codes,
  equal, trim_prefix, arith,
}
use thinkgo.Response.Defs.{Response}
use thinkgo.Echo.Chain.{HandlerFunc}
use thinkgo.Echo.Files.{File, Served, serve_file}

-- The black list is a map to `true`: its keys.
unfoldable pub is_black : Bytes → List Bytes → Bool
unfolding equal
is_black ext [] = false
is_black ext (b ∷ bs) = equal ext b || is_black ext bs

-- `FileSystem`; `fs` is `none` where it is nil.
pub record FileSystem : Type 0 where
  pub fs : Option (Bytes → Option File)
  pub path : Bytes
  pub dir : Bytes

-- The fields that the setters write; `binder`, `renderer` and `hook` are `none` where they are nil.
pub record Instance (B T K X : Type 0) : Type 0 where
  pub http2 : Bool
  pub default_error_handler : X
  pub error_handler : X
  pub binder : B
  pub renderer : Option T
  pub hook : Option K
  pub debug : Bool
  pub auto_index : Bool
  pub blackfile : List Bytes
  pub file_system : FileSystem

module _ {B T K X : Type 0} where
  -- `New`, but for the router; `x` is the default error handler, `b` the default binder.
  abbrev pub new : X → B → Instance B T K X
  new x b = record {
    http2 = true;
    default_error_handler = x;
    error_handler = x;
    binder = b;
    renderer = none;
    hook = none;
    debug = false;
    auto_index = false;
    blackfile = codes ".html" ∷ [];
    file_system = record { fs = none; path = []; dir = [] };
  }

  -- `HTTP2`, `SetHTTPErrorHandler`, `SetBinder`, `SetRenderer`, `SetDebug`, `AutoIndex` and `Hook`
  abbrev pub set_http2 : Bool → Instance B T K X → Instance B T K X
  set_http2 on e = record e { http2 = on }

  abbrev pub set_error_handler : X → Instance B T K X → Instance B T K X
  set_error_handler x e = record e { error_handler = x }

  abbrev pub set_binder : B → Instance B T K X → Instance B T K X
  set_binder b e = record e { binder = b }

  abbrev pub set_renderer : T → Instance B T K X → Instance B T K X
  set_renderer t e = record e { renderer = some t }

  abbrev pub set_debug : Bool → Instance B T K X → Instance B T K X
  set_debug on e = record e { debug = on }

  abbrev pub set_auto_index : Bool → Instance B T K X → Instance B T K X
  set_auto_index on e = record e { auto_index = on }

  abbrev pub set_hook : K → Instance B T K X → Instance B T K X
  set_hook k e = record e { hook = some k }

  -- `Blackfile`
  unfoldable pub blackfile : List Bytes → Instance B T K X → Instance B T K X
  blackfile [] e = e
  blackfile (x ∷ xs) e = blackfile xs (record e { blackfile = x ∷ e.blackfile })

  -- The fields that `SetFileSystem` writes, and the handler that it registers at "path*": `none` is the call of
  -- a nil file system. `url` is the text of the request's URL.
  abbrev pub set_file_system :
      Bytes → Bytes → Option (Bytes → Option File) → Instance B T K X → Instance B T K X
  set_file_system path dir fs e = record e {
    file_system = record { fs = fs; path = path; dir = dir };
  }

  unfoldable pub serve_system : Instance B T K X → Bytes → Option Served
  unfolding serve_file trim_prefix
  serve_system e url = elim e.file_system.fs [
    | none ↦ none
    | some fs ↦ some (serve_file fs e.auto_index (trim_prefix e.file_system.path url))
  ]

  -- A further call of `Blackfile` only adds: an extension is on the list if it is given, or was there.
  pub is_black-blackfile :
      (x : Bytes) (xs : List Bytes) (e : Instance B T K X)
      → is_black x (blackfile xs e).blackfile ≡ (is_black x xs || is_black x e.blackfile)
  unfolding blackfile is_black
  is_black-blackfile x [] e = refl
  is_black-blackfile x (y ∷ xs) e =
      is_black-blackfile x xs (record e { blackfile = y ∷ e.blackfile }) ∙ ground arith

-- `HTTPError`
pub record HttpError : Type 0 where
  pub code : ℕ
  pub message : Bytes

-- `NewHTTPError`: the first message, or else the text of the status
unfoldable pub new_http_error : (ℕ → Bytes) → ℕ → List Bytes → HttpError
new_http_error status_text code [] = record { code = code; message = status_text code }
new_http_error status_text code (m ∷ _) = record { code = code; message = m }

-- `SetCode`
abbrev pub set_code : ℕ → HttpError → HttpError
set_code code e = record e { code = code }

-- What `run` calls with its server: one of the two listening methods, or the end with a message.
pub data Start : Type 0 where
  listen : Start
  listen_tls : Bytes → Bytes → Start
  invalid_tls_configuration : Start

-- `run`: whether http2 configures the server, and how it is started
unfoldable pub run : {B T K X : Type 0} → Instance B T K X → List Bytes → Bool × Start
run e [] = (e.http2, listen)
run e (crt ∷ key ∷ []) = (e.http2, listen_tls crt key)
run e _ = (e.http2, invalid_tls_configuration)

-- `Run` and `RunServer`, `RunTLS` and `RunTLSServer`
abbrev pub run_plain : {B T K X : Type 0} → Instance B T K X → Bool × Start
run_plain e = run e []

abbrev pub run_tls : {B T K X : Type 0} → Instance B T K X → Bytes → Bytes → Bool × Start
run_tls e crt key = run e (crt ∷ key ∷ [])

abbrev pub status_switching_protocols : ℕ
status_switching_protocols = 101

-- The fields of a context that `WebSocket` writes
pub record SocketContext (C W : Type 0) : Type 0 where
  pub socket : Option C
  pub response : Response W

-- The handler that `WebSocket` registers. The server of the package websocket sees the inner handler as a
-- change of the context and of the variable `err`.
unfoldable pub web_socket :
    {C W Err : Type 0}
    → ((C → SocketContext C W × Option Err → SocketContext C W × Option Err)
        → SocketContext C W × Option Err
        → SocketContext C W × Option Err)
    → HandlerFunc (SocketContext C W) Err
    → HandlerFunc (SocketContext C W) Err
web_socket serve h c =
    serve
      (λ ws s. h (record s.0 {
        socket = some ws;
        response = record s.0.response { status = status_switching_protocols };
      }))
      (c, none)
