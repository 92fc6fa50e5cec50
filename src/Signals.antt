-- ===== src/Signals.antt =====
-- src/signals: the way of a signal into the engine.
pub mod Consumer
pub mod Queue
pub mod Validator
