-- ===== src/Signals/Consumer.antt =====
-- src/signals/consumer.py: `SignalConsumer`. Seen is the table of seen keys, Admission the way of one
-- message of the gateway to the bus, Outbox the reliable reports with the table `event_outbox` of
-- src/infra/db.py, and Handshake the control messages of a connection.
pub mod Admission
pub mod Handshake
pub mod Outbox
pub mod Seen
