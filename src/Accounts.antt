-- ===== src/Accounts.antt =====
-- The packet handlers that work on the database (Server/Network/ClientPacketHandler.cpp and
-- HandlerPrelude.cpp) over the tables of Server/DB/Entities/Entities.h.
pub mod Store
pub mod Prelude
pub mod Auth
pub mod Profile
pub mod Friends
pub mod Transfer
