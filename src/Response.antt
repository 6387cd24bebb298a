-- ===== src/Response.antt =====
-- core/response.go: the wrapper of an `http.ResponseWriter` that sends the header once.
pub mod Defs
pub mod Once
mod Examples
