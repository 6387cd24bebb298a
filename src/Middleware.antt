-- ===== src/Middleware.antt =====
-- core/middleware.
pub mod Auth
pub mod Errors
pub mod Gzip
mod Examples
