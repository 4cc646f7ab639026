-- ===== src/Examples.antt =====
-- Tests, and each theorem at a concrete input.
mod Backends
mod Pools
mod Limits
mod Configs
mod Registries
mod Proxies
mod Supervision
mod Probes
mod Sessions
mod Passes
mod Controllers
mod Pages
mod Interleavings
mod Runs
mod Tunnels
