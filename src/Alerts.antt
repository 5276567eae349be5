-- ===== src/Alerts.antt =====
-- internal/alerts and the alert states of internal/store: drops of a user's prefixes and recoveries.
pub mod State
pub mod Checker
