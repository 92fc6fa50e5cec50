-- ===== src/Domain.antt =====
-- The data of src/domain: signals, broker-side positions and symbols, and trades.
pub mod Signal
pub mod Position
pub mod Trade
pub mod Wire
