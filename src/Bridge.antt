-- ===== src/Bridge.antt =====
-- ctf-server/bridge.mjs: one WebSocket connection gets one QEMU.
pub mod Config
pub mod Limits
pub mod Qemu
pub mod Session
pub mod Health
pub mod Server
pub mod Startup
mod Tests
