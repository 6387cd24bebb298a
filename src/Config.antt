-- ===== src/Config.antt =====
-- core/config: the containers, what they read from and write to files, and the registry of adapters.
pub mod Fake
pub mod Ini
pub mod Json
pub mod Xml
pub mod Yaml
pub mod Registry
pub mod Files
mod Examples
