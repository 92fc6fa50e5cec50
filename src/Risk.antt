-- ===== src/Risk.antt =====
-- src/risk: the trackers, the rules and the risk engine.
pub mod Cluster
pub mod Throttle
pub mod Loss
pub mod Rules
pub mod Engine
