-- ===== src/Network.antt =====
-- Server/Network: the sessions, the rooms and the packet handlers.
pub mod Reply
pub mod World
pub mod Room
pub mod SessionManager
pub mod RoomHandlers
pub mod Events
pub mod Dispatch
