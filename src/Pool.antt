-- ===== src/Pool.antt =====
-- internal/pool: the backends, the pool that selects among them, and the connection limiter.
pub mod Backend
pub mod Registry
pub mod Select
pub mod Limiter
