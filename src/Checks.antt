-- ===== src/Checks.antt =====
-- The theorems at concrete inputs: fixed-point numbers in the place of floats, and sample data.
pub mod Floats
pub mod Samples
pub mod Rules
pub mod Guards
pub mod Queue
pub mod Execution
pub mod Orders
pub mod Positions
pub mod Router
pub mod Gateway
pub mod Fleet
