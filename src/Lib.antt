-- ===== src/Lib.antt =====
-- A verification library for the chat server (Server, ServerCore) and its console client (Client). Clients send framed packets over
-- TCP; a session cuts its stream into packets and calls a handler for each; the handlers work on
-- rooms, on the table of players that are online and on a database; what a room does is pushed to
-- the queue of the room, whose jobs the worker threads run one at a time; replies are queued in
-- the session of the receiver and written by a coroutine.
--
-- Common: numbers, tests, lists, tables and integers that the other modules share.
-- ServerCore/RecvBuffer: RecvBuffer (ServerCore/Packet/RecvBuffer.cpp). What memcpy leaves when it
--   copies ranges that overlap is not defined, so it is a parameter that no theorem relies on.
-- ServerCore/Framing: GameSession::OnReceived (Server/Network/GameSession.cpp) and Session::DoRead
--   (ServerCore/Session.cpp). The packet handler is a parameter. The framing loop has no bound in
--   the source; here it takes fuel, and `none` means that the fuel ran out. More fuel than there
--   are packets is enough.
-- ServerCore/SendBuffer: the buffers that one thread makes (ServerCore/Packet/SendBuffer.cpp, and
--   _MakeSendBuffer of Server/Network/ClientPacketHandler.h).
-- ServerCore/Writer: Session::Send and Session::DoWrite, as steps between which others run; a write
--   that fails is two, the locked part of the catch and the Disconnect behind it.
-- ServerCore/JobQueue: JobQueue::Push and JobQueue::Execute (ServerCore/JobQueue.cpp), as steps. A
--   queue that waits in the global queue is due, as is one that a thread is about to run.
-- ServerCore/RwSpinLock: RWSpinLock (ServerCore/Lock.cpp). A turn of a spin loop is a step.
-- Network/World: the state of the server: sessions, rooms with their waiting jobs, the tables of
--   RoomManager and SessionManager, and the packets sent. Objects are named by numbers.
-- Network/Room, Network/SessionManager: Room.cpp, RoomManager.cpp and SessionManager.cpp of
--   Server/Network. Network/RoomHandlers: the handlers of rooms and messages of
--   Server/Network/ClientPacketHandler.cpp, and GameSession::OnDisconnected. Network/Events:
--   histories of packets of every kind, ends of AI requests, disconnections and runs of jobs.
-- Security: Server/Security/InputValidator.cpp and PasswordHasher.cpp; bcrypt is a parameter, with
--   what it documents as hypotheses.
-- Accounts/Store: the entities (Server/DB/Entities/Entities.h) and what DBContext::SaveChanges
--   (Server/DB/ORM/DBContext.h) does: Begin, a statement for each change, Commit or Rollback. The
--   connection is a parameter: a record of queries and of these calls. Accounts/Store/Save has the
--   documented laws of a transaction, and derives that all of the changes are saved or none, on a
--   connection whose Begin, Commit and Rollback succeed. Accounts/Store/Rows is about balances.
-- Accounts/Auth, Profile, Friends, Transfer: the handlers of Server/Network/ClientPacketHandler.cpp
--   that use the database. What other connections commit between the queries of a handler and its
--   flush is an arbitrary function. The retry loop of a transfer has four turns, as in the source.
-- Ai/SseParser: SseParser (Server/AI/SseParser.h). Ai/ClaudeClient: Claude::StreamMessage
--   (Server/AI/ClaudeClient.cpp); the JSON library and what each HTTP exchange brings are
--   parameters, and the attempts are three, as in the source. Ai/History, Ai/ChatService: the texts,
--   the messages and the run of AiChatService (Server/AI/AiChatService.cpp), over the tables and the
--   call as parameters.
-- Ai/HttpClient: Server/AI/HttpClient.cpp: the request, the URL and the head, and in its modules the
--   body by chunks, by its length or up to the end. What each read brings is a parameter. The loops
--   take fuel of one turn more than there are bytes, which is always enough.
-- Client/ConsoleUi, Client/AiLines: DisplayWidth (Client/ConsoleUI.cpp), and Handle_S_AI_CHAT
--   (Client/ServerPacketHandler.cpp) with the lines it draws (Client/ClientApp.cpp); its two loops take
--   fuel, and more than the bytes that are pending is enough. Client/Messages: the messages that are
--   printed, and ParseWhisperInput. Client/Replies: the reply handlers, WaitForResponse and the login
--   screen, with the writes of a handler one by one; the packets that come in a turn of the menu
--   are parameters. Client/ChatLoop: the keys of the chat screen.
--   Client/Dispatch: the table of Client/ServerPacketHandler.h.
-- Orm/Property, Orm/Meta, Orm/Sql: the fields, the descriptions and the statements of
--   Server/DB/ORM (Property.h, Meta.h, Sql.h). Orm/Connection: the transactions of DBConnection.cpp
--   over the ODBC library, a parameter whose laws are in Orm/Connection/Logs. Orm/Context: the
--   changes and SaveChanges of DBContext.h, with objects as numbers and a heap.
--   Orm/Context/Query: DbSet::ToList; its loop over the rows takes fuel, and more than the rows of
--   the answer is enough.
-- Network/Dispatch: the table of Server/Network/ClientPacketHandler.h.
-- Orm/Pool: Server/DB/DBConnectionPool.cpp, as steps.
-- Tests: an instance of each parameter and runs of the models.
--
-- A handler runs as one step here; the threads that interleave are modelled where the source
-- synchronises them: the job queue, the writer, the lock and the pool of connections. Accounts/Store
-- describes SaveChanges by the rows, Orm/Context by the statements. Not modelled: the other screens of
-- the client and its drawing, the resolver, TLS and sockets below the reads, the opening of an ODBC
-- connection, the return of send buffer chunks to their pool, start-up, and generated code.
pub mod Common
pub mod ServerCore
pub mod Network
pub mod Security
pub mod Accounts
pub mod Ai
pub mod Orm
pub mod Client
pub mod Tests
