-- ===== src/Conn.antt =====
-- internal/uplink/conn.go: one node's live connection. What several goroutines share is explicit:
-- requests and bridges are objects at addresses, and each function below is a stretch of code that
-- holds the lock or that runs between two waits.
pub mod Chan
pub mod State
pub mod Close
pub mod Request
pub mod Socket
pub mod Dispatch
pub mod Heartbeat
pub mod Delivery
pub mod Stream
pub mod Invariant
pub mod Correlation
pub mod Steps
pub mod Stalls
pub mod Liveness
