-- ===== src/Alert.antt =====
-- router/internal/alert: the alert engine, and the delivery of its notifications.
pub mod Engine
pub mod Delivery
mod Tests
