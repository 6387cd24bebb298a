-- ===== src/Render.antt =====
-- core/render.go, core/controller.go and the index of templates that core/thinkgo.go makes.
pub mod Template
pub mod Permanent
pub mod Prepare
pub mod Controller
pub mod Pages
pub mod Pooled
mod Examples
