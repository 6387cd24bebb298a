-- ===== src/Echo.antt =====
-- core/echo.go and core/group.go: the registration of routes and middleware, and the service of a
-- request.
pub mod Chain
pub mod Register
pub mod Stored
pub mod Serve
pub mod Routed
pub mod Uri
pub mod Files
pub mod Instance
mod Examples
