-- ===== src/Control.antt =====
-- internal/control: when an instance is restarted, registered again and admitted to the pool.
pub mod Backoff
pub mod Supervisor
pub mod Uniqueness
pub mod Warp
pub mod Windows
