-- ===== src/ServerCore.antt =====
-- The ServerCore folder: buffers, framing, the send queue of a session, locks and job queues.
pub mod RecvBuffer
pub mod Framing
pub mod RwSpinLock
pub mod JobQueue
pub mod Writer
pub mod SendBuffer
