-- ===== src/Ipc.antt =====
-- Kernel objects, handles and channels: kernel/src/ipc.rs.
pub mod Types
pub mod Payload
pub mod Event
pub mod Handles
pub mod Channel
pub mod Ends
pub mod Collector
mod Tests
