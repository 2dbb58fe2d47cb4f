-- ===== src/Client.antt =====
-- The console client of Client: the lines of an AI answer on the screen, and the replies of the
-- server.
pub mod ConsoleUi
pub mod AiLines
pub mod Replies
pub mod Messages
pub mod Dispatch
pub mod ChatLoop
