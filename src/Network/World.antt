-- ===== src/Network/World.antt =====
-- The state of the server: the sessions (Server/Network/GameSession.h), the rooms with the jobs
-- that wait in their queues (Room.h), the tables of the two managers, and the packets sent.
-- A session and a room stand for their objects and are named by numbers; `db` is the database.
use asio_chat_server.Common.{ℕ, Bool, Option, List, [], ◌∷◌, ◌++◌, Dict, update}
use asio_chat_server.Network.Reply.{Reply}

-- `PlayerInfo` and `CurrentRoom`; `connected` is false once `OnDisconnected` has run.
pub record GameSession : Type 0 where
  pub player_id : ℕ
  pub nickname : List ℕ
  pub current_room : Option ℕ
  pub ai_busy : Bool
  pub connected : Bool

-- What the lambdas that are pushed to a room do.
pub data Job : Type 0 where
  enter : ℕ → Job
  leave : ℕ → Job
  broadcast : Reply → Job

pub record Room : Type 0 where
  pub name : List ℕ
  pub members : Dict ℕ
  pub dead : Bool
  pub jobs : List Job

-- `listed` are the keys of `RoomManager::Rooms`, newest first; a key's value is that room.
pub record World (D : Type 0) : Type 0 where
  pub db : D
  pub sessions : ℕ → GameSession
  pub online : Dict ℕ
  pub rooms : ℕ → Room
  pub listed : List ℕ
  pub next_room : ℕ
  pub sent : List (ℕ × Reply)

module _ {D : Type 0} where
  -- `Session::Send`: the newest packet first.
  abbrev pub send : ℕ → Reply → World D → World D
  send sid reply w = record w { sent = (sid, reply) ∷ w.sent }

  abbrev pub set_session : ℕ → GameSession → World D → World D
  set_session sid s w = record w { sessions = update w.sessions sid s }

  abbrev pub set_room : ℕ → Room → World D → World D
  set_room rid r w = record w { rooms = update w.rooms rid r }

  -- `GameSession::SetRoom`
  unfoldable pub set_current_room : ℕ → Option ℕ → World D → World D
  set_current_room sid r w = set_session sid (record (w.sessions sid) { current_room = r }) w

  -- `RoomPtr->Push(job)`: the job waits behind the others of the room.
  unfoldable pub push_job : ℕ → Job → World D → World D
  push_job rid job w =
      set_room rid (record (w.rooms rid) { jobs = (w.rooms rid).jobs ++ job ∷ [] }) w
