-- ===== src/Witnesses.antt =====
-- Concrete runs of the code, one for each theorem that has conditions.
pub mod Connections
pub mod Uplinks
pub mod Requests
pub mod Credentials
pub mod Accounts
pub mod Pages
pub mod Operations
pub mod Startup
