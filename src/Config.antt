-- ===== src/Config.antt =====
-- router/internal/config: the UCI file, the configuration that is read from it, and its updates.
pub mod Uci
pub mod Rewrite
pub mod Atomic
pub mod Settings
pub mod Change
pub mod Apply
pub mod Readers
pub mod Load
pub mod View
pub mod Manager
mod Tests
