-- ===== src/Proxy.antt =====
-- internal/proxy: how a listener dials through the pool, and who may use it.
pub mod Dial
pub mod Auth
pub mod Wire
pub mod Socks5
pub mod Serve
pub mod Http
pub mod Listen
pub mod Tunnel
