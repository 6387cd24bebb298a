-- ===== src/Lib.antt =====
-- thinkgo: a model of the framework under core/ and of its tool under deploy/, with proofs.
--
-- The program. An Echo instance (core/echo.go) registers handlers in a Router (core/router.go), which
-- all its groups (core/group.go) share. A request runs the instance's hook, for a Think instance the
-- one of core/thinkgo.go that completes the path with a module, a controller and an action. Then the
-- router is asked for the handler of method and path, the middleware is put in front of it, and the
-- chain runs on a Context (core/context.go), which holds the parameters that the router found, a
-- store, and the Response (core/response.go) that is written. The pages of a Think instance are
-- templates (core/render.go) that its controllers (core/controller.go) render. The tool under deploy/
-- creates applications, and builds and restarts one whenever its sources change.
--
-- Base: the names of the library that the parts share, tests on native numbers, lists over native
-- lengths, prefixes of texts, and the functions of Go's packages strings and path that the source
-- calls. A text is the list of its bytes.
--
-- Router: Method has `methodHandler` with `addHandler` and `findHandler`; Tree the nodes with
-- `newNode`, `addChild` and `findChild` in its variants; Insert has `insert` and `Add`; Find has
-- `Find` and `check405`. A node holds a list of nodes, so Node and Nodes are mutual. The parent
-- pointer, which nothing reads, is left out. The loop of `Find` is `step`, iterated by `run` on as
-- much fuel as the tree has nodes, which is enough. Its labels Param, MatchAny and End are `param`,
-- `match_any` and `finish`. `go_back` is the branch for a prefix that does not match. The other
-- modules are proofs: Content, Writes and Refines on the handlers under a node, Ends on where nodes
-- end, Entries and Entered on their paths, names and instances, Sound and Rooted on well-formed trees,
-- Shaped, Grows, Behind and Kept on the form of the nodes that `Add` makes, Routes and Calls on whole
-- routes, Table on lists of routes, and Rounds, Terminates, StaticFirst, Leads, Invariant, Answers,
-- Served, PlainEntries and Serves on `Find`; Room is about `maxParam`. Keys and Known are about the
-- texts where nodes stand, and Match, Descent and Values about paths that match a route.
--
-- Echo: Chain has the wrappers of middleware and handlers, `Use`, and the chain that `ServeHTTP`
-- builds; Register has `add`, `Any`, `Match` and `Group`; Serve has `ServeHTTP` and the default error
-- handler; Stored is about registration, and Routed about registration and `ServeHTTP` together; Uri
-- has `URI`, Files what the file servers do, and Instance `New`, the setters, `HTTPError`, `WebSocket`
-- and `run`. The nine methods `Connect` to `Trace` of an instance and of a group are one definition
-- each, `route` and `group_route`. The dynamic types that the wrappers tell apart are constructors.
--
-- Think: Hook has `Hook`, Rewrites is about it; Config has `getConfig` of core/config.go; Static has
-- `dirServe` and the walks of core/utils.go; Create has the variable `ThinkGo` and `Run`. Render:
-- Template has core/render.go, Permanent is about templates that are parsed once, Prepare has
-- `htmlPrepare`, Controller `Render` of core/controller.go, Pages is about the names of pages and
-- templates, and Pooled about contexts that are used again. Response: Defs has core/response.go, Once
-- is about it. Context: Life has `NewContext`, `reset`, `Query`, `Form` and `Bind`, Bind the binder of
-- core/echo.go, Files has `File`, and Fits and Matched are about new contexts in `Find`; Params has
-- `P` and `Param`, Store has `Get`, `Set` and `TrySet`, Reply the replies, Cookie has `SetCookie` and
-- `GetCookie`, and Escape the escapes of net/url.
--
-- Modules: Names has `SnakeString` and `CamelString` of core/utils.go, from which modules make the
-- names of their routes, Actions the routes and paths of core/module.go, Verbs is about them,
-- Controllers has its `Router`, Module `NewModule` and the setters; Themes and Listing have
-- core/theme.go. Middleware: Auth has core/middleware/auth.go, Gzip core/middleware/compress.go, and
-- Errors core/recover.go and core/logger.go around the end of `ServeHTTP`, with a handler of errors and
-- a logger that may panic. Config: Fake has core/config/fake.go, Registry the
-- adapters of core/config/config.go, Ini, Json, Xml and Yaml the containers, and Files what json and
-- xml read from and write to files. The fuel of `parseFile` is the number of files that may be open at
-- once: a call keeps its file open until it returns, and `os.Open` fails when there are too many. Paths
-- is about `SetDIY` of yaml.
--
-- Deploy: Command has the choice of a command in deploy/deploy.go, Run has `runApp` of deploy/run.go,
-- New `createApp` of deploy/new.go, with Refused about the status 2, Confirm the confirmation and
-- Colors the log lines of deploy/util.go, Dirs the directories that deploy/run.go watches, Build
-- `loadConfig` and `Autobuild`, and Watch the goroutines of deploy/watch.go. These share variables
-- without a lock, so their order matters: an action is an event, time that goes by, or one move of one
-- goroutine, and reading the time and storing it in `scheduleTime` are two moves.
--
-- Conventions. `none` of an Option, and `panic` of a lookup, stand for a panic of the source, such as
-- an index out of range. A handler is a parameter `H`, an instance a parameter `E`, the writer of
-- net/http a parameter with its methods. What encoders of Go's library return enters a reply as an
-- argument. Texts are bytes; changes of case and white space are those of ASCII, so what is said where
-- they come in is said of ASCII texts.
--
-- Not modelled: the copies of other projects under core/ (http2, template, context, websocket, color,
-- log, gytes, config/xml/x2j), whose operations are parameters where they are called; what is input
-- and output (servers, files, sockets, processes) or printed; the texts that `createApp` writes; the
-- calls by reflection of core/module.go; and the setters of core/echo.go that only pass on to the
-- logger.
pub mod Base
pub mod Router
pub mod Think
pub mod Response
pub mod Render
pub mod Context
pub mod Echo
pub mod Config
pub mod Modules
pub mod Middleware
pub mod Deploy
