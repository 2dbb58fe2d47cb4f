-- ===== src/Client/Dispatch.antt =====
-- `ServerPacketHandler` of Client/ServerPacketHandler.h: the client's table of the handlers. The
-- enumeration of the ids is that of Server/Network/ClientPacketHandler.h.
pub mod Sides
use asio_chat_server.Common.{
  ℕ, ltb, Bool, true, false, Option, none, some, List, [], ◌∷◌, ◌==◌, if◌then◌else◌,
}
use asio_chat_server.Network.Dispatch.{
  PacketName, id_of, table_length, pkt_s_register, pkt_s_login, pkt_s_create_room,
  pkt_s_get_room_list, pkt_s_enter_room, pkt_s_exit_room, pkt_s_update_nickname,
  pkt_s_delete_account, pkt_s_chat, pkt_s_shout, pkt_s_whisper, pkt_s_request_friend,
  pkt_s_accept_friend, pkt_s_reject_friend, pkt_s_get_pending_friends, pkt_s_get_friend_list,
  pkt_s_remove_friend, pkt_s_get_balance, pkt_s_transfer, pkt_s_transfer_received, pkt_s_ai_chat,
}

-- `Handle_INVALID`, or the handler named after a packet.
pub data ClientHandler : Type 0 where
  on_invalid : ClientHandler
  on_packet : PacketName → ClientHandler

-- The assignments of `Init`, as pairs; the others are `Handle_INVALID`.
abbrev client_assignments : List (PacketName × ClientHandler)
client_assignments =
    (pkt_s_register, on_packet pkt_s_register)
    ∷ (pkt_s_login, on_packet pkt_s_login)
    ∷ (pkt_s_create_room, on_packet pkt_s_create_room)
    ∷ (pkt_s_get_room_list, on_packet pkt_s_get_room_list)
    ∷ (pkt_s_enter_room, on_packet pkt_s_enter_room)
    ∷ (pkt_s_exit_room, on_packet pkt_s_exit_room)
    ∷ (pkt_s_update_nickname, on_packet pkt_s_update_nickname)
    ∷ (pkt_s_delete_account, on_packet pkt_s_delete_account)
    ∷ (pkt_s_chat, on_packet pkt_s_chat)
    ∷ (pkt_s_shout, on_packet pkt_s_shout)
    ∷ (pkt_s_whisper, on_packet pkt_s_whisper)
    ∷ (pkt_s_request_friend, on_packet pkt_s_request_friend)
    ∷ (pkt_s_accept_friend, on_packet pkt_s_accept_friend)
    ∷ (pkt_s_reject_friend, on_packet pkt_s_reject_friend)
    ∷ (pkt_s_get_pending_friends, on_packet pkt_s_get_pending_friends)
    ∷ (pkt_s_get_friend_list, on_packet pkt_s_get_friend_list)
    ∷ (pkt_s_remove_friend, on_packet pkt_s_remove_friend)
    ∷ (pkt_s_get_balance, on_packet pkt_s_get_balance)
    ∷ (pkt_s_transfer, on_packet pkt_s_transfer)
    ∷ (pkt_s_transfer_received, on_packet pkt_s_transfer_received)
    ∷ (pkt_s_ai_chat, on_packet pkt_s_ai_chat)
    ∷ []

abbrev client_assigned : ℕ → List (PacketName × ClientHandler) → ClientHandler
client_assigned id [] = on_invalid
client_assigned id ((name, h) ∷ rest) = if id == id_of name then h else client_assigned id rest

-- The entry at an id; `none` is a read behind the end of the table.
unfoldable pub client_entry : ℕ → Option ClientHandler
client_entry id = if ltb id table_length then some (client_assigned id client_assignments) else none

module _ {Message State : Type 0} (parse : PacketName → List ℕ → Option Message)
    (process : PacketName → Message → State → Bool × State) where
  abbrev run_client_handler : ClientHandler → List ℕ → State → Bool × State
  run_client_handler on_invalid body st = (false, st)
  run_client_handler (on_packet p) body st = elim (parse p body) [
    | none ↦ (false, st)
    | some msg ↦ process p msg st
  ]

  -- `HandlePacket`; `parse` and `process` stand for the protocol buffers and the handlers.
  unfoldable pub handle_client_packet : ℕ → List ℕ → State → Option (Bool × State)
  unfolding client_entry
  handle_client_packet id body st = elim (client_entry id) [
    | none ↦ none
    | some h ↦ some (run_client_handler h body st)
  ]
