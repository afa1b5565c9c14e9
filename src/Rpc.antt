-- ===== src/Rpc.antt =====
-- The database manager: its operations, its server and its clients.
mod Action
pub mod Messages
pub mod Controller
pub mod Operations
pub mod Dispatch
pub mod Query
pub mod Wire
pub mod Server
pub mod Client
mod Examples
