-- ===== src/Context.antt =====
-- core/context.go: the parameters of the route, the store, the replies and the cookies of a request.
pub mod Params
pub mod Store
pub mod Life
pub mod Fits
pub mod Matched
pub mod Bind
pub mod Files
pub mod Reply
pub mod Cookie
pub mod Escape
mod Examples
