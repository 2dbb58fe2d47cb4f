-- ===== src/Network/Dispatch.antt =====
-- `ClientPacketHandler` of Server/Network/ClientPacketHandler.h: the ids of the packets, and the table
-- of the handlers, which has one entry less than there are ids.
pub mod Table
use asio_chat_server.Common.{
  ℕ, ltb, Bool, true, false, Option, none, some, List, [], ◌∷◌, ◌==◌, if◌then◌else◌,
}

pub data PacketName : Type 0 where
  pkt_c_register pkt_s_register pkt_c_login pkt_s_login pkt_c_create_room : PacketName
  pkt_s_create_room pkt_c_get_room_list pkt_s_get_room_list pkt_c_enter_room pkt_s_enter_room :
      PacketName
  pkt_c_exit_room pkt_s_exit_room pkt_c_update_nickname pkt_s_update_nickname pkt_c_delete_account :
      PacketName
  pkt_s_delete_account pkt_c_chat pkt_s_chat pkt_c_shout pkt_s_shout : PacketName
  pkt_c_whisper pkt_s_whisper pkt_c_request_friend pkt_s_request_friend pkt_c_accept_friend :
      PacketName
  pkt_s_accept_friend pkt_c_reject_friend pkt_s_reject_friend pkt_c_get_pending_friends
        pkt_s_get_pending_friends :
      PacketName
  pkt_c_get_friend_list pkt_s_get_friend_list pkt_c_remove_friend pkt_s_remove_friend
        pkt_c_get_balance :
      PacketName
  pkt_s_get_balance pkt_c_transfer pkt_s_transfer pkt_s_transfer_received pkt_c_ai_chat : PacketName
  pkt_s_ai_chat : PacketName

-- The values of the enumeration.
abbrev pub id_of : PacketName → ℕ
id_of pkt_c_register = 1000
id_of pkt_s_register = 1001
id_of pkt_c_login = 1002
id_of pkt_s_login = 1003
id_of pkt_c_create_room = 1004
id_of pkt_s_create_room = 1005
id_of pkt_c_get_room_list = 1006
id_of pkt_s_get_room_list = 1007
id_of pkt_c_enter_room = 1008
id_of pkt_s_enter_room = 1009
id_of pkt_c_exit_room = 1010
id_of pkt_s_exit_room = 1011
id_of pkt_c_update_nickname = 1012
id_of pkt_s_update_nickname = 1013
id_of pkt_c_delete_account = 1014
id_of pkt_s_delete_account = 1015
id_of pkt_c_chat = 1016
id_of pkt_s_chat = 1017
id_of pkt_c_shout = 1018
id_of pkt_s_shout = 1019
id_of pkt_c_whisper = 1020
id_of pkt_s_whisper = 1021
id_of pkt_c_request_friend = 1022
id_of pkt_s_request_friend = 1023
id_of pkt_c_accept_friend = 1024
id_of pkt_s_accept_friend = 1025
id_of pkt_c_reject_friend = 1026
id_of pkt_s_reject_friend = 1027
id_of pkt_c_get_pending_friends = 1028
id_of pkt_s_get_pending_friends = 1029
id_of pkt_c_get_friend_list = 1030
id_of pkt_s_get_friend_list = 1031
id_of pkt_c_remove_friend = 1032
id_of pkt_s_remove_friend = 1033
id_of pkt_c_get_balance = 1034
id_of pkt_s_get_balance = 1035
id_of pkt_c_transfer = 1036
id_of pkt_s_transfer = 1037
id_of pkt_s_transfer_received = 1038
id_of pkt_c_ai_chat = 1039
id_of pkt_s_ai_chat = 1040

-- The functions that the table can hold: the handler of a kind of packet, or `Handle_INVALID`.
pub data Handler : Type 0 where
  handle_invalid : Handler
  on_register_packet on_login_packet on_create_room_packet on_get_room_list_packet : Handler
  on_enter_room_packet on_exit_room_packet on_update_nickname_packet on_delete_account_packet :
      Handler
  on_chat_packet on_shout_packet on_whisper_packet on_request_friend_packet : Handler
  on_accept_friend_packet on_reject_friend_packet on_get_pending_friends_packet
        on_get_friend_list_packet :
      Handler
  on_remove_friend_packet on_get_balance_packet on_transfer_packet on_ai_chat_packet : Handler

-- The assignments of `Init`, as pairs; the others are `Handle_INVALID`.
abbrev pub assignments : List (ℕ × Handler)
assignments =
    (1000, on_register_packet)
    ∷ (1002, on_login_packet)
    ∷ (1004, on_create_room_packet)
    ∷ (1006, on_get_room_list_packet)
    ∷ (1008, on_enter_room_packet)
    ∷ (1010, on_exit_room_packet)
    ∷ (1012, on_update_nickname_packet)
    ∷ (1014, on_delete_account_packet)
    ∷ (1016, on_chat_packet)
    ∷ (1018, on_shout_packet)
    ∷ (1020, on_whisper_packet)
    ∷ (1022, on_request_friend_packet)
    ∷ (1024, on_accept_friend_packet)
    ∷ (1026, on_reject_friend_packet)
    ∷ (1028, on_get_pending_friends_packet)
    ∷ (1030, on_get_friend_list_packet)
    ∷ (1032, on_remove_friend_packet)
    ∷ (1034, on_get_balance_packet)
    ∷ (1036, on_transfer_packet)
    ∷ (1039, on_ai_chat_packet)
    ∷ []

abbrev pub assigned : ℕ → List (ℕ × Handler) → Handler
assigned id [] = handle_invalid
assigned id ((k, h) ∷ rest) = if id == k then h else assigned id rest

-- `UINT16_MAX`, the length of the table.
abbrev pub table_length : ℕ
table_length = 65535

-- `HandlePacket`: the entry at the id; `none` is a read behind the end of the table.
unfoldable pub table_entry : ℕ → Option Handler
table_entry id = if ltb id table_length then some (assigned id assignments) else none

module _ {Message State : Type 0} (parse : Handler → List ℕ → Option Message)
    (process : Message → State → Bool × State) where
  -- `Handle_INVALID` reads no body; the others parse it as their kind, and drop it if that fails.
  -- `parse` and `process` stand for the protocol buffers and the handlers.
  abbrev pub run_handler : Handler → List ℕ → State → Bool × State
  run_handler handle_invalid body st = (false, st)
  run_handler h body st = elim (parse h body) [ none ↦ (false, st) | some msg ↦ process msg st ]

  unfoldable pub handle_packet : ℕ → List ℕ → State → Option (Bool × State)
  unfolding table_entry
  handle_packet id body st = elim (table_entry id) [
    | none ↦ none
    | some h ↦ some (run_handler h body st)
  ]
