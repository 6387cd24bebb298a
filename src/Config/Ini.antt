-- ===== src/Config/Ini.antt =====
-- core/config/ini.go: `Syntax` has the lines of a file, `Parse` the parser of files, `Container` the
-- operations on what was parsed, `Save` the text that is saved; the other children are proofs.
pub mod Syntax
pub mod Parse
pub mod Container
pub mod Save
pub mod Lookups
pub mod Include
pub mod Lines
pub mod RoundTrip
pub mod SaveParse
mod Examples
