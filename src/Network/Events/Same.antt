-- ===== src/Network/Events/Same.antt =====
-- The packets of Server/Network/ClientPacketHandler.cpp about accounts, friends, money and the model
-- do not touch the rooms.
use asio_chat_server.Common.{ℕ, ◌≡◌, Bool, Option, List, String, arith}
use asio_chat_server.Common.Int.{ℤ}
use asio_chat_server.Network.Reply.{
  Reply, s_request_friend, s_accept_friend, s_reject_friend, s_remove_friend,
}
use asio_chat_server.Network.World.{World, Room}
use asio_chat_server.Network.RoomHandlers.{Encoding}
use asio_chat_server.Security.PasswordHasher.{Bcrypt}
use asio_chat_server.Accounts.Store.{Store, Change}
use asio_chat_server.Accounts.Prelude.{Result}
use asio_chat_server.Accounts.Auth.{handle_register, handle_login}
use asio_chat_server.Accounts.Profile.{handle_update_nickname, handle_ai_chat, ai_chat_done}
use asio_chat_server.Accounts.Friends.{
  flush_changes, handle_request_friend, handle_accept_friend, handle_reject_friend,
  handle_remove_friend, handle_get_pending_friends, handle_get_friend_list,
}
use asio_chat_server.Accounts.Transfer.{
  TransferLockMode, answer, handle_transfer, handle_get_balance,
}

-- The rooms, their list and their counter.
abbrev pub rooms_of : {D : Type 0} → World D → (ℕ → Room) × (List ℕ × ℕ)
rooms_of w = (w.rooms, (w.listed, w.next_room))

module _ (store : Store) (w : World store.State) where
  flush_changes-same :
      (reply : Bool → String → Reply) (others : store.State → store.State) (sid : ℕ)
      (r : Result (List Change))
      → rooms_of (flush_changes store reply others sid r w) ≡ rooms_of w
  unfolding flush_changes
  flush_changes-same reply others sid r = ground arith

  pub login-same :
      (bcrypt : Bcrypt) (enc : Encoding) (salt : Option (List ℕ))
      (others : store.State → store.State) (sid : ℕ) (email password : List ℕ)
      → rooms_of (handle_login store bcrypt enc salt others sid email password w) ≡ rooms_of w
  unfolding handle_login
  login-same bcrypt enc salt others sid email password = ground arith

  pub register-same :
      (bcrypt : Bcrypt) (salt : Option (List ℕ)) (others : store.State → store.State) (sid : ℕ)
      (name email password : List ℕ)
      → rooms_of (handle_register store bcrypt salt others sid name email password w) ≡ rooms_of w
  unfolding handle_register
  register-same bcrypt salt others sid name email password = ground arith

  pub nickname-same :
      (enc : Encoding) (others : store.State → store.State) (sid : ℕ) (nickname : List ℕ)
      → rooms_of (handle_update_nickname store enc others sid nickname w) ≡ rooms_of w
  unfolding handle_update_nickname
  nickname-same enc others sid nickname = ground arith

  pub request-same :
      (others : store.State → store.State) (sid : ℕ) (email : List ℕ)
      → rooms_of (handle_request_friend store others sid email w) ≡ rooms_of w
  unfolding handle_request_friend
  request-same others sid email = flush_changes-same s_request_friend others sid _

  pub accept-same :
      (others : store.State → store.State) (sid : ℕ) (email : List ℕ)
      → rooms_of (handle_accept_friend store others sid email w) ≡ rooms_of w
  unfolding handle_accept_friend
  accept-same others sid email = flush_changes-same s_accept_friend others sid _

  pub reject-same :
      (others : store.State → store.State) (sid : ℕ) (email : List ℕ)
      → rooms_of (handle_reject_friend store others sid email w) ≡ rooms_of w
  unfolding handle_reject_friend
  reject-same others sid email = flush_changes-same s_reject_friend others sid _

  pub remove-same :
      (others : store.State → store.State) (sid : ℕ) (email : List ℕ)
      → rooms_of (handle_remove_friend store others sid email w) ≡ rooms_of w
  unfolding handle_remove_friend
  remove-same others sid email = flush_changes-same s_remove_friend others sid _

  pub pending-same : (sid : ℕ) → rooms_of (handle_get_pending_friends store sid w) ≡ rooms_of w
  unfolding handle_get_pending_friends
  pending-same sid = ground arith

  pub friend_list-same : (sid : ℕ) → rooms_of (handle_get_friend_list store sid w) ≡ rooms_of w
  unfolding handle_get_friend_list
  friend_list-same sid = ground arith

  pub balance-same : (sid : ℕ) → rooms_of (handle_get_balance store sid w) ≡ rooms_of w
  unfolding handle_get_balance
  balance-same sid = ground arith

  pub transfer-same :
      (enc : Encoding) (mode : TransferLockMode) (others : ℕ → store.State → store.State) (sid : ℕ)
      (target : List ℕ) (amount : ℤ)
      → rooms_of (handle_transfer store enc mode others sid target amount w) ≡ rooms_of w
  unfolding handle_transfer answer
  transfer-same enc mode others sid target amount = ground arith

  pub ask_ai-same :
      (enabled : Bool) (sid : ℕ) (message : List ℕ)
      → rooms_of ((handle_ai_chat enabled sid message w).1) ≡ rooms_of w
  unfolding handle_ai_chat
  ask_ai-same enabled sid message = ground arith

  pub end_ai-same : (thrown : Bool) (sid : ℕ) → rooms_of (ai_chat_done thrown sid w) ≡ rooms_of w
  unfolding ai_chat_done
  end_ai-same thrown sid = ground arith
