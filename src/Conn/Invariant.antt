-- ===== src/Conn/Invariant.antt =====
-- What holds of a connection between any two stretches of the code of internal/uplink/conn.go: the
-- maps point at live objects, and no channel that is closed once is closed again.
pub mod Store
pub mod Closing
pub mod Calls
pub mod Requests
pub mod Reading
pub mod Ending
