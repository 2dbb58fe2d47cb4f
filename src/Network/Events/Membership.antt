-- ===== src/Network/Events/Membership.antt =====
-- Who is in a room after the packets of Server/Network/ClientPacketHandler.cpp have been handled
-- and the jobs that they pushed to the room have run.
use asio_chat_server.Common.{
  ℕ, ◌≡◌, true, false, none, some, [], ◌∷◌, arith, ◌==◌, if◌then◌else◌, lookup, contains,
  lookup-insert, contains-remove,
}
use asio_chat_server.Network.Reply.{s_enter_room}
use asio_chat_server.Network.World.{World, set_current_room, push_job}
use asio_chat_server.Network.Room.{find_room, run_job, run_jobs_of, execute, room_enter, room_leave}
use asio_chat_server.Network.RoomHandlers.{Encoding, push_leave, handle_enter_room}

module _ {D : Type 0} (enc : Encoding) (w : World D) (sid rid : ℕ) where
  -- A session without a room enters a listed room that is not dead and whose queue is empty: it is
  -- answered with success, its room is set, and once the job has run the room has it as the player's session and
  -- every other player's entry as before.
  pub enter-member :
      (j : ℕ)
      → contains rid w.listed ≡ true
      → (w.rooms rid).dead ≡ false
      → (w.rooms rid).jobs ≡ []
      → (w.sessions sid).current_room ≡ none
      → let w' = run_job rid (handle_enter_room enc sid rid w) in
        (w'.sent ≡ (sid, s_enter_room true rid) ∷ w.sent)
        × ((w'.sessions sid).current_room ≡ some rid)
        × (lookup j (w'.rooms rid).members ≡ (
            if (w.sessions sid).player_id == j then some sid else lookup j (w.rooms rid).members))
  unfolding run_job run_jobs_of execute handle_enter_room find_room push_leave push_job
      set_current_room room_enter
  enter-member j known alive empty free =
      ground (arith, lookup-insert (w.sessions sid).player_id j sid (w.rooms rid).members)

  -- A session that is the only member of its room, which is listed, not dead and has an empty queue,
  -- asks to enter that room again: it is answered
  -- with success and keeps the room as its own, but once the two jobs have run the room is dead,
  -- has no members and is listed no more.
  pub reenter_kills_room :
      (w.rooms rid).members ≡ ((w.sessions sid).player_id, sid) ∷ []
      → contains rid w.listed ≡ true
      → (w.rooms rid).dead ≡ false
      → (w.rooms rid).jobs ≡ []
      → (w.sessions sid).current_room ≡ some rid
      → let w' = run_job rid (run_job rid (handle_enter_room enc sid rid w)) in
        (w'.sent ≡ (sid, s_enter_room true rid) ∷ w.sent)
        × ((w'.sessions sid).current_room ≡ some rid)
        × ((w'.rooms rid).dead ≡ true)
        × ((w'.rooms rid).members ≡ [])
        × (contains rid w'.listed ≡ false)
  unfolding run_job run_jobs_of execute handle_enter_room find_room push_leave push_job
      set_current_room room_enter room_leave
  reenter_kills_room alone known alive empty inside =
      ground (arith, contains-remove rid rid w.listed)
