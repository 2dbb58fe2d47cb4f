-- ===== src/Network/Reply.antt =====
-- The packets that the server sends (Proto/Protocol.proto, as Server/Network/ClientPacketHandler.cpp
-- fills them), before they are serialised. A field that a handler does not set has the default of
-- the protocol: 0, false or the empty text. Texts that clients chose are their bytes.
use asio_chat_server.Common.{ℕ, Bool, List, String}
use asio_chat_server.Common.Int.{ℤ}

-- A pending request or a friend in a list reply.
pub record FriendInfo : Type 0 where
  pub email : List ℕ
  pub nickname : List ℕ
  pub is_online : Bool

pub data Reply : Type 0 where
  s_register : Bool → String → Reply
  s_login : Bool → String → List ℕ → Reply
  s_create_room : Bool → ℕ → Reply
  s_get_room_list : Bool → List (ℕ × List ℕ) → Reply
  s_enter_room : Bool → ℕ → Reply
  s_exit_room : Bool → Reply
  s_update_nickname : Bool → String → Reply
  s_delete_account : Bool → String → Reply
  s_chat : List ℕ → List ℕ → Reply
  s_shout : List ℕ → List ℕ → Reply
  s_whisper : Bool → List ℕ → List ℕ → String → Reply
  s_request_friend : Bool → String → Reply
  s_accept_friend : Bool → String → Reply
  s_reject_friend : Bool → String → Reply
  s_remove_friend : Bool → String → Reply
  s_get_pending_friends : Bool → List FriendInfo → Reply
  s_get_friend_list : Bool → List FriendInfo → Reply
  s_get_balance : Bool → ℤ → Reply
  s_transfer : Bool → String → ℤ → ℕ → Reply
  s_transfer_received : List ℕ → ℤ → ℤ → Reply
  s_ai_chat : Bool → Bool → String → Reply
