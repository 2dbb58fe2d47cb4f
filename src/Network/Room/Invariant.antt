-- ===== src/Network/Room/Invariant.antt =====
-- What holds of the rooms of Server/Network/Room.cpp and RoomManager.cpp at all times.
use asio_chat_server.Common.{
  ℕ, ◌+◌, ◌^◌, ◌<◌, ◌≡◌, true, false, List, [], ◌∷◌, arith, Dict, contains, if◌then◌else◌,
  contains-remove,
}
use asio_chat_server.Network.Reply.{Reply}
use asio_chat_server.Network.World.{
  GameSession, Job, enter, leave, broadcast, World, send, set_room, push_job,
}
use asio_chat_server.Network.Room.{
  room_enter, remove_room, room_leave, send_members, room_broadcast, execute, run_jobs_of, run_job,
  create_room, push_all, broadcast_all,
}

-- A room that was created is listed exactly while it is not dead, a dead room has no members, and
-- no room is listed whose id was not given out.
pub record RoomsOk {D : Type 0} (w : World D) : Type 0 where
  pub listed_alive :
      (r : ℕ) → r < w.next_room → contains r w.listed ≡ true → (w.rooms r).dead ≡ false
  pub alive_listed :
      (r : ℕ) → 0 < r → r < w.next_room → (w.rooms r).dead ≡ false → contains r w.listed ≡ true
  pub dead_empty : (r : ℕ) → (w.rooms r).dead ≡ true → (w.rooms r).members ≡ []
  pub fresh : (r : ℕ) → contains r w.listed ≡ true → (0 < r) × (r < w.next_room)

module _ {D : Type 0} (w : World D) (v : RoomsOk w) where
  pub send-RoomsOk : (sid : ℕ) (reply : Reply) → RoomsOk (send sid reply w)
  send-RoomsOk sid reply = record {
    listed_alive = v.listed_alive;
    alive_listed = v.alive_listed;
    dead_empty = v.dead_empty;
    fresh = v.fresh;
  }

  -- A write of a room that keeps its members and whether it is dead.
  pub push_job-RoomsOk : (rid : ℕ) (job : Job) → RoomsOk (push_job rid job w)
  unfolding push_job
  push_job-RoomsOk rid job = record {
    listed_alive = λ r lt h. ground (arith, v.listed_alive r lt h);
    alive_listed = λ r p lt h. ground (arith, v.alive_listed r p lt);
    dead_empty = λ r h. ground (arith, v.dead_empty r);
    fresh = v.fresh;
  }

  pub room_enter-RoomsOk : (rid sid : ℕ) → RoomsOk (room_enter rid sid w)
  unfolding room_enter
  room_enter-RoomsOk rid sid = record {
    listed_alive = λ r lt h. ground (arith, v.listed_alive r);
    alive_listed = λ r p lt h. ground (arith, v.alive_listed r p);
    dead_empty = λ r h. ground (arith, v.dead_empty r);
    fresh = λ r h. ground (arith, v.fresh r);
  }

  pub room_leave-RoomsOk : (rid sid : ℕ) → RoomsOk (room_leave rid sid w)
  unfolding room_leave remove_room
  room_leave-RoomsOk rid sid = record {
    listed_alive = λ r lt h. ground (arith, v.listed_alive r, contains-remove rid r w.listed);
    alive_listed = λ r p lt h. ground (arith, v.alive_listed r p, contains-remove rid r w.listed);
    dead_empty = λ r h. ground (arith, v.dead_empty r);
    fresh = λ r h. ground (arith, v.fresh r, contains-remove rid r w.listed);
  }

  pub create_room-RoomsOk :
      (name : List ℕ) → 0 < w.next_room → w.next_room + 1 < 2 ^ 32 → RoomsOk (create_room name w).1
  unfolding create_room
  create_room-RoomsOk name pos small = record {
    listed_alive = λ r lt h.
        ground (arith, v.listed_alive r, v.fresh r, contains-remove w.next_room r w.listed);
    alive_listed =
        λ r p lt h. ground (arith, v.alive_listed r p, contains-remove w.next_room r w.listed);
    dead_empty = λ r h. ground (arith, v.dead_empty r);
    fresh = λ r h. ground (arith, v.fresh r, contains-remove w.next_room r w.listed);
  }

module _ {D : Type 0} where
  pub RoomsOk-sessions :
      (w : World D) (f : ℕ → GameSession) (o : Dict ℕ)
      → RoomsOk w
      → RoomsOk (record w { sessions = f; online = o })
  RoomsOk-sessions w f o v = record {
    listed_alive = v.listed_alive;
    alive_listed = v.alive_listed;
    dead_empty = v.dead_empty;
    fresh = v.fresh;
  }

  send_members-RoomsOk :
      (ms : Dict ℕ) (reply : Reply) (w : World D) → RoomsOk w → RoomsOk (send_members ms reply w)
  unfolding send_members
  send_members-RoomsOk [] reply w v = v
  send_members-RoomsOk ((p, sid) ∷ ms) reply w v =
      send_members-RoomsOk ms reply _
        (elim (w.sessions sid).connected as (λ b. RoomsOk (if b then send sid reply w else w)) [
          | true ↦ send-RoomsOk w v sid reply
          | false ↦ v
        ])

  drop_job-RoomsOk :
      (rid : ℕ) (jobs : List Job) (w : World D)
      → RoomsOk w
      → RoomsOk (set_room rid (record (w.rooms rid) { jobs = jobs }) w)
  drop_job-RoomsOk rid jobs w v = record {
    listed_alive = λ r lt h. ground (arith, v.listed_alive r lt h);
    alive_listed = λ r p lt h. ground (arith, v.alive_listed r p lt);
    dead_empty = λ r h. ground (arith, v.dead_empty r);
    fresh = v.fresh;
  }

  execute-RoomsOk : (rid : ℕ) (job : Job) (w : World D) → RoomsOk w → RoomsOk (execute rid job w)
  unfolding execute room_broadcast
  execute-RoomsOk rid (enter sid) w v = room_enter-RoomsOk w v rid sid
  execute-RoomsOk rid (leave sid) w v = room_leave-RoomsOk w v rid sid
  execute-RoomsOk rid (broadcast reply) w v = send_members-RoomsOk (w.rooms rid).members reply w v

  run_jobs_of-RoomsOk :
      (rid : ℕ) (jobs : List Job) (w : World D) → RoomsOk w → RoomsOk (run_jobs_of rid jobs w)
  unfolding run_jobs_of
  run_jobs_of-RoomsOk rid [] w v = v
  run_jobs_of-RoomsOk rid (job ∷ jobs) w v =
      execute-RoomsOk rid job _ (drop_job-RoomsOk rid jobs w v)

  pub run_job-RoomsOk : (rid : ℕ) (w : World D) → RoomsOk w → RoomsOk (run_job rid w)
  unfolding run_job
  run_job-RoomsOk rid w v = run_jobs_of-RoomsOk rid (w.rooms rid).jobs w v

  push_all-RoomsOk :
      (rids : List ℕ) (job : Job) (w : World D) → RoomsOk w → RoomsOk (push_all rids job w)
  unfolding push_all
  push_all-RoomsOk [] job w v = v
  push_all-RoomsOk (rid ∷ rids) job w v = push_all-RoomsOk rids job _ (push_job-RoomsOk w v rid job)

  pub broadcast_all-RoomsOk :
      (reply : Reply) (w : World D) → RoomsOk w → RoomsOk (broadcast_all reply w)
  unfolding broadcast_all
  broadcast_all-RoomsOk reply w v = push_all-RoomsOk w.listed (broadcast reply) w v
