-- ===== src/Wan.antt =====
-- router/internal/wan: the interface to the dish, and the probes over it.
pub mod Monitor
pub mod Discovery
mod Tests
