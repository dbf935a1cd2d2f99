-- ===== src/Fs.antt =====
-- src/fs.rs: ZranFS, the read-only file system over a RAM disk.
pub mod Image
pub mod Mount
pub mod Checked
pub mod Mounted
pub mod Resolve
pub mod Safe
pub mod Writer
pub mod Extended
pub mod Layers
pub mod Boot
pub mod RoundTrip
mod Tests
