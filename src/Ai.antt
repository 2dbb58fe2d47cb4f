-- ===== src/Ai.antt =====
-- The AI chat of Server/AI: the parser of the event stream, the history that is sent along, and
-- the calls of the model.
pub mod SseParser
pub mod History
pub mod HttpClient
pub mod ClaudeClient
pub mod ChatService
