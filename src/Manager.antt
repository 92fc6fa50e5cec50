-- ===== src/Manager.antt =====
-- manager/app: the service that starts the agents and routes signals to them.
pub mod SignalRouter
pub mod Supervision
