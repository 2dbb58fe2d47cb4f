-- ===== src/Network/RoomHandlers.antt =====
-- The handlers of Server/Network/ClientPacketHandler.cpp that deal with rooms and messages, and
-- `GameSession::OnDisconnected` of GameSession.cpp. Each takes the session `sid` that sent the
-- packet. The text conversions of ServerCore/StringUtils.cpp call the system and are parameters.
use asio_chat_server.Common.{
  ℕ, Bool, true, false, Option, none, some, List, [], ◌==◌, if◌then◌else◌, String,
}
use asio_chat_server.Network.Reply.{
  s_create_room, s_get_room_list, s_enter_room, s_exit_room, s_chat, s_shout, s_whisper,
}
use asio_chat_server.Network.World.{
  enter, leave, broadcast, World, send, set_current_room, push_job,
}
use asio_chat_server.Network.Room.{create_room, find_room, get_room_list, broadcast_all}
use asio_chat_server.Network.SessionManager.{unregister, get_player_id, get_session}

-- `StringUtils::Utf8ToWide` and `WideToUtf8`
pub record Encoding : Type 0 where
  pub to_wide : List ℕ → List ℕ
  pub to_utf8 : List ℕ → List ℕ

abbrev list_names : (List ℕ → List ℕ) → List (ℕ × List ℕ) → List (ℕ × List ℕ)
list_names f = asio_chat_server.Common.map (λ (r : ℕ × List ℕ). (r.0, f r.1))

-- `RoomPtr->Push(leave)` for the session's room, if it has one.
unfoldable pub push_leave : {D : Type 0} → ℕ → Option ℕ → World D → World D
push_leave sid none w = w
push_leave sid (some rid) w = push_job rid (leave sid) w

module _ {D : Type 0} (enc : Encoding) where
  unfoldable pub handle_create_room : ℕ → List ℕ → World D → World D
  handle_create_room sid name w =
      let (rid, w') = create_room (enc.to_wide name) w in send sid (s_create_room true rid) w'

  unfoldable pub handle_get_room_list : ℕ → World D → World D
  handle_get_room_list sid w =
      send sid (s_get_room_list true (list_names enc.to_utf8 (get_room_list w))) w

  unfoldable pub handle_exit_room : ℕ → World D → World D
  unfolding push_leave
  handle_exit_room sid w = elim (w.sessions sid).current_room [
    | none ↦ send sid (s_exit_room false) w
    | some rid ↦
        send sid (s_exit_room true) (set_current_room sid none (push_leave sid (some rid) w))
  ]

  unfoldable pub handle_enter_room : ℕ → ℕ → World D → World D
  unfolding push_leave
  handle_enter_room sid rid w = elim (find_room rid w) [
    | none ↦ send sid (s_enter_room false rid) w
    | some found ↦ send sid (s_enter_room true rid) (
        push_job found (enter sid)
          (set_current_room sid (some found) (push_leave sid (w.sessions sid).current_room w)))
  ]

  unfoldable pub handle_chat : ℕ → List ℕ → World D → World D
  handle_chat sid msg w = elim (w.sessions sid).current_room [
    | none ↦ w
    | some rid ↦ push_job rid (broadcast (s_chat (enc.to_utf8 (w.sessions sid).nickname) msg)) w
  ]

  unfoldable pub handle_shout : ℕ → List ℕ → World D → World D
  handle_shout sid msg w = broadcast_all (s_shout (enc.to_utf8 (w.sessions sid).nickname) msg) w

  -- The branches behind the look-up of the target's session.
  unfoldable pub whisper_to : ℕ → ℕ → List ℕ → Option ℕ → World D → World D
  whisper_to sid target message none w = send sid (s_whisper false [] [] "상대를 찾을 수 없거나 오프라인입니다.") w
  whisper_to sid target message (some to) w =
      if target == (w.sessions sid).player_id
      then send sid (s_whisper false [] [] "자기 자신에게는 보낼 수 없습니다.") w
      else send to (s_whisper true (enc.to_utf8 (w.sessions sid).nickname) message "") w

  unfoldable pub handle_whisper : ℕ → List ℕ → List ℕ → World D → World D
  unfolding whisper_to
  handle_whisper sid target_nickname message w =
      let target = get_player_id (enc.to_wide target_nickname) w.sessions w.online in
      whisper_to sid target message (get_session target w.online) w

-- `GameSession::OnDisconnected`.
unfoldable pub on_disconnected : {D : Type 0} → ℕ → World D → World D
unfolding push_leave
on_disconnected sid w =
    let s = w.sessions sid in
    let left = push_leave sid s.current_room w in
    let gone = record left {
      sessions =
          asio_chat_server.Common.update left.sessions sid
            (record s { current_room = none; connected = false });
    } in
    if s.player_id == 0
    then gone
    else record gone { online = unregister s.player_id sid gone.online }
