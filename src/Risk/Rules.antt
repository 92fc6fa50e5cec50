-- ===== src/Risk/Rules.antt =====
-- src/risk/rules.py: the rules of the risk engine, and the list of them.
pub mod Context
pub mod Memory
pub mod Market
