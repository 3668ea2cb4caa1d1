-- ===== src/Bridge.antt =====
-- The server: class ProtocolBridge of host_server/protocol_bridge.py, on the `HEAD` side of the
-- unresolved merge that the file holds (lines 1-675).
pub mod State
pub mod Keys
pub mod Aggregate
pub mod Telemetry
pub mod Fedavg
pub mod Round
pub mod Handlers
