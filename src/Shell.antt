-- ===== src/Shell.antt =====
-- src/shell.rs: the line editor, the commands over the file system, and `load`.
pub mod Path
pub mod Line
pub mod Base64
pub mod Disk
pub mod Commands
pub mod RoundTrip
pub mod Canonical
pub mod Editing
pub mod Planted
pub mod Typed
pub mod Accepted
pub mod Sound
pub mod Session
mod Tests
