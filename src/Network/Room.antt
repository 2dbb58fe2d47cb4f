-- ===== src/Network/Room.antt =====
-- Server/Network/Room.cpp and RoomManager.cpp. The operations of a room run as jobs of its queue,
-- one after the other; `run_job` is the execution of the oldest one.
pub mod Invariant
use asio_chat_server.Common.{
  ℕ, ◌+◌, ◌%◌, ◌^◌, Bool, true, false, Option, none, some, List, [], ◌∷◌, ◌++◌, Dict, update,
  insert, erase, remove, contains, is_empty, if◌then◌else◌,
}
use asio_chat_server.Network.Reply.{Reply}
use asio_chat_server.Network.World.{
  GameSession, Job, enter, leave, broadcast, Room, World, send, set_room, push_job,
}

module _ {D : Type 0} where
  -- `Room::Enter`
  unfoldable pub room_enter : ℕ → ℕ → World D → World D
  room_enter rid sid w =
      let r = w.rooms rid in
      if r.dead
      then w
      else set_room rid (record r { members = insert (w.sessions sid).player_id sid r.members }) w

  -- `RoomManager::RemoveRoom`
  unfoldable pub remove_room : ℕ → World D → World D
  remove_room rid w = record w { listed = remove rid w.listed }

  -- `Room::Leave`
  unfoldable pub room_leave : ℕ → ℕ → World D → World D
  unfolding remove_room
  room_leave rid sid w =
      let r = w.rooms rid in
      let left = erase (w.sessions sid).player_id r.members in
      if is_empty left
      then remove_room rid (set_room rid (record r { members = left; dead = true }) w)
      else set_room rid (record r { members = left }) w

  -- `Room::Broadcast` over the members that are left to visit. `lock()` of a member's weak pointer
  -- fails once the session has disconnected; where something else holds the object for longer, the
  -- source queues the packet for a closed socket.
  unfoldable pub send_members : Dict ℕ → Reply → World D → World D
  send_members [] reply w = w
  send_members ((p, sid) ∷ ms) reply w =
      send_members ms reply (if (w.sessions sid).connected then send sid reply w else w)

  unfoldable pub room_broadcast : ℕ → Reply → World D → World D
  unfolding send_members
  room_broadcast rid reply w = send_members (w.rooms rid).members reply w

  unfoldable pub execute : ℕ → Job → World D → World D
  unfolding room_enter room_leave room_broadcast
  execute rid (enter sid) w = room_enter rid sid w
  execute rid (leave sid) w = room_leave rid sid w
  execute rid (broadcast reply) w = room_broadcast rid reply w

  -- The oldest job of the room, on the room without it.
  unfoldable pub run_jobs_of : ℕ → List Job → World D → World D
  unfolding execute
  run_jobs_of rid [] w = w
  run_jobs_of rid (job ∷ jobs) w =
      execute rid job (set_room rid (record (w.rooms rid) { jobs = jobs }) w)

  unfoldable pub run_job : ℕ → World D → World D
  unfolding run_jobs_of
  run_job rid w = run_jobs_of rid (w.rooms rid).jobs w

  -- `RoomManager::CreateRoom`; ids are `uint32` and wrap.
  unfoldable pub create_room : List ℕ → World D → ℕ × World D
  create_room name w =
      let rid = w.next_room in
      (
        rid,
        record w {
          rooms =
              update w.rooms rid (record { name = name; members = []; dead = false; jobs = [] });
          listed = rid ∷ remove rid w.listed;
          next_room = (rid + 1) % 2 ^ 32;
        },
      )

  -- `RoomManager::FindRoom`
  unfoldable pub find_room : ℕ → World D → Option ℕ
  find_room rid w = if contains rid w.listed then some rid else none

  pub list_rooms : List ℕ → World D → List (ℕ × List ℕ)
  list_rooms [] w = []
  list_rooms (rid ∷ rids) w = (rid, (w.rooms rid).name) ∷ list_rooms rids w

  -- `RoomManager::GetRoomList`, as ids with names.
  unfoldable pub get_room_list : World D → List (ℕ × List ℕ)
  unfolding list_rooms
  get_room_list w = list_rooms w.listed w

  unfoldable pub push_all : List ℕ → Job → World D → World D
  unfolding push_job
  push_all [] job w = w
  push_all (rid ∷ rids) job w = push_all rids job (push_job rid job w)

  -- `RoomManager::Broadcast`
  unfoldable pub broadcast_all : Reply → World D → World D
  unfolding push_all
  broadcast_all reply w = push_all w.listed (broadcast reply) w

  -- `RoomManager::Clear`
  unfoldable pub clear_rooms : World D → World D
  clear_rooms w = record w { listed = [] }
