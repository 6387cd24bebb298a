-- ===== src/Deploy.antt =====
-- deploy: the command line tool, which watches an application and builds it anew.
pub mod Watch
pub mod Build
pub mod Dirs
pub mod Run
pub mod Confirm
pub mod New
pub mod Command
pub mod Colors
mod Examples
