-- ===== src/Think.antt =====
-- core/thinkgo.go: the hook that rewrites the URL of a request before it is routed.
pub mod Hook
pub mod Rewrites
pub mod Config
pub mod Static
pub mod Create
mod Examples
