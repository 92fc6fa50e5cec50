-- ===== src/Positions.antt =====
-- src/positions: the store of live trades.
pub mod Store
pub mod Manager
