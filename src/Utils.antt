-- ===== src/Utils.antt =====
-- src/utils: symbols, prices and lots.
pub mod Symbol
pub mod Price
pub mod LotCalculator
