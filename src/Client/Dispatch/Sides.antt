-- ===== src/Client/Dispatch/Sides.antt =====
-- The tables of Client/ServerPacketHandler.h and Server/Network/ClientPacketHandler.h: each packet has a
-- handler on one side, the one it is sent to.
use asio_chat_server.Common.{◌≡◌, ◌≢◌, ◌⊎◌, refl, some, inl, inr}
use asio_chat_server.Network.Dispatch.{
  PacketName, id_of, Handler, handle_invalid, table_entry, pkt_c_register, pkt_s_register,
  pkt_c_login, pkt_s_login, pkt_c_create_room, pkt_s_create_room, pkt_c_get_room_list,
  pkt_s_get_room_list, pkt_c_enter_room, pkt_s_enter_room, pkt_c_exit_room, pkt_s_exit_room,
  pkt_c_update_nickname, pkt_s_update_nickname, pkt_c_delete_account, pkt_s_delete_account,
  pkt_c_chat, pkt_s_chat, pkt_c_shout, pkt_s_shout, pkt_c_whisper, pkt_s_whisper,
  pkt_c_request_friend, pkt_s_request_friend, pkt_c_accept_friend, pkt_s_accept_friend,
  pkt_c_reject_friend, pkt_s_reject_friend, pkt_c_get_pending_friends, pkt_s_get_pending_friends,
  pkt_c_get_friend_list, pkt_s_get_friend_list, pkt_c_remove_friend, pkt_s_remove_friend,
  pkt_c_get_balance, pkt_s_get_balance, pkt_c_transfer, pkt_s_transfer, pkt_s_transfer_received,
  pkt_c_ai_chat, pkt_s_ai_chat,
}
use asio_chat_server.Client.Dispatch.{on_invalid, on_packet, client_entry}

-- The server takes it and the client refuses it.
abbrev ToServer : PacketName → Type 0
ToServer p =
    ((h : Handler) × ((table_entry (id_of p) ≡ some h) × (h ≢ handle_invalid)))
    × (client_entry (id_of p) ≡ some on_invalid)

-- The client takes it by the handler of its name, and the server refuses it.
abbrev ToClient : PacketName → Type 0
ToClient p =
    (client_entry (id_of p) ≡ some (on_packet p)) × (table_entry (id_of p) ≡ some handle_invalid)

-- Every packet of the enumeration goes to one side only: either the server has a handler for it and
-- the client drops it, or the client has the handler of its name and the server drops it.
pub client_entry-sides : (p : PacketName) → ToServer p ⊎ ToClient p
unfolding client_entry table_entry
client_entry-sides pkt_c_register = inl ((_, (refl, λ e. absurd cc)), refl)
client_entry-sides pkt_s_register = inr (refl, refl)
client_entry-sides pkt_c_login = inl ((_, (refl, λ e. absurd cc)), refl)
client_entry-sides pkt_s_login = inr (refl, refl)
client_entry-sides pkt_c_create_room = inl ((_, (refl, λ e. absurd cc)), refl)
client_entry-sides pkt_s_create_room = inr (refl, refl)
client_entry-sides pkt_c_get_room_list = inl ((_, (refl, λ e. absurd cc)), refl)
client_entry-sides pkt_s_get_room_list = inr (refl, refl)
client_entry-sides pkt_c_enter_room = inl ((_, (refl, λ e. absurd cc)), refl)
client_entry-sides pkt_s_enter_room = inr (refl, refl)
client_entry-sides pkt_c_exit_room = inl ((_, (refl, λ e. absurd cc)), refl)
client_entry-sides pkt_s_exit_room = inr (refl, refl)
client_entry-sides pkt_c_update_nickname = inl ((_, (refl, λ e. absurd cc)), refl)
client_entry-sides pkt_s_update_nickname = inr (refl, refl)
client_entry-sides pkt_c_delete_account = inl ((_, (refl, λ e. absurd cc)), refl)
client_entry-sides pkt_s_delete_account = inr (refl, refl)
client_entry-sides pkt_c_chat = inl ((_, (refl, λ e. absurd cc)), refl)
client_entry-sides pkt_s_chat = inr (refl, refl)
client_entry-sides pkt_c_shout = inl ((_, (refl, λ e. absurd cc)), refl)
client_entry-sides pkt_s_shout = inr (refl, refl)
client_entry-sides pkt_c_whisper = inl ((_, (refl, λ e. absurd cc)), refl)
client_entry-sides pkt_s_whisper = inr (refl, refl)
client_entry-sides pkt_c_request_friend = inl ((_, (refl, λ e. absurd cc)), refl)
client_entry-sides pkt_s_request_friend = inr (refl, refl)
client_entry-sides pkt_c_accept_friend = inl ((_, (refl, λ e. absurd cc)), refl)
client_entry-sides pkt_s_accept_friend = inr (refl, refl)
client_entry-sides pkt_c_reject_friend = inl ((_, (refl, λ e. absurd cc)), refl)
client_entry-sides pkt_s_reject_friend = inr (refl, refl)
client_entry-sides pkt_c_get_pending_friends = inl ((_, (refl, λ e. absurd cc)), refl)
client_entry-sides pkt_s_get_pending_friends = inr (refl, refl)
client_entry-sides pkt_c_get_friend_list = inl ((_, (refl, λ e. absurd cc)), refl)
client_entry-sides pkt_s_get_friend_list = inr (refl, refl)
client_entry-sides pkt_c_remove_friend = inl ((_, (refl, λ e. absurd cc)), refl)
client_entry-sides pkt_s_remove_friend = inr (refl, refl)
client_entry-sides pkt_c_get_balance = inl ((_, (refl, λ e. absurd cc)), refl)
client_entry-sides pkt_s_get_balance = inr (refl, refl)
client_entry-sides pkt_c_transfer = inl ((_, (refl, λ e. absurd cc)), refl)
client_entry-sides pkt_s_transfer = inr (refl, refl)
client_entry-sides pkt_s_transfer_received = inr (refl, refl)
client_entry-sides pkt_c_ai_chat = inl ((_, (refl, λ e. absurd cc)), refl)
client_entry-sides pkt_s_ai_chat = inr (refl, refl)
