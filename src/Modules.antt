-- ===== src/Modules.antt =====
-- core/module.go and core/theme.go, and the names of core/utils.go from which modules build their routes.
pub mod Names
pub mod Themes
pub mod Listing
pub mod Actions
pub mod Verbs
pub mod Controllers
pub mod Module
mod Examples
