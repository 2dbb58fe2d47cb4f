-- ===== src/Client/Replies.antt =====
-- The reply handlers of Client/ServerPacketHandler.cpp: what each writes to the global variables, in
-- order, while the loop of the screen polls them with `WaitForResponse` of Client/ClientApp.cpp.
-- Texts are their bytes.
pub mod Publish
pub mod Auth
use asio_chat_server.Common.{
  ℕ, zero, suc, Bool, true, false, List, [], ◌∷◌, ◌++◌, ◌==◌, if◌then◌else◌, take,
}
use asio_chat_server.Common.Int.{ℤ}

-- The requests whose reply is awaited, and the variables `G…Done` and `G…Success` of each.
pub data Kind : Type 0 where
  registering : Kind
  login : Kind
  room_list : Kind
  creating_room : Kind
  exit_room : Kind
  update_nickname : Kind
  delete_account : Kind
  friend_list : Kind
  pending_friends : Kind
  request_friend : Kind
  accept_friend : Kind
  reject_friend : Kind
  remove_friend : Kind
  balance : Kind
  transfer : Kind

abbrev pub number_of : Kind → ℕ
number_of registering = 0
number_of login = 1
number_of room_list = 2
number_of creating_room = 3
number_of exit_room = 4
number_of update_nickname = 5
number_of delete_account = 6
number_of friend_list = 7
number_of pending_friends = 8
number_of request_friend = 9
number_of accept_friend = 10
number_of reject_friend = 11
number_of remove_friend = 12
number_of balance = 13
number_of transfer = 14

pub record RoomInfo : Type 0 where
  pub room_id : ℤ
  pub room_name : List ℕ

pub record FriendInfo : Type 0 where
  pub email : List ℕ
  pub nickname : List ℕ
  pub is_online : Bool

-- The global variables.
pub record Globals : Type 0 where
  pub done : Kind → Bool
  pub success : Kind → Bool
  pub register_message : List ℕ
  pub login_message : List ℕ
  pub nickname_message : List ℕ
  pub delete_message : List ℕ
  pub friend_message : List ℕ
  pub transfer_message : List ℕ
  pub my_nickname : List ℕ
  pub created_room : ℤ
  pub rooms : List RoomInfo
  pub friends : List FriendInfo
  pub pendings : List FriendInfo
  pub my_balance : ℤ
  pub retries : ℤ

-- One assignment, of an atomic variable, of another, or of a list under its lock.
pub data Write : Type 0 where
  set_done : Kind → Write
  set_success : Kind → Bool → Write
  set_register_message : List ℕ → Write
  set_login_message : List ℕ → Write
  set_nickname_message : List ℕ → Write
  set_delete_message : List ℕ → Write
  set_friend_message : List ℕ → Write
  set_transfer_message : List ℕ → Write
  set_my_nickname : List ℕ → Write
  set_created_room : ℤ → Write
  set_rooms : List RoomInfo → Write
  set_friends : List FriendInfo → Write
  set_pendings : List FriendInfo → Write
  set_my_balance : ℤ → Write
  set_retries : ℤ → Write

abbrev pub set_flag : Kind → Bool → (Kind → Bool) → Kind → Bool
set_flag k b f j = if number_of j == number_of k then b else f j

unfoldable pub apply_write : Write → Globals → Globals
apply_write (set_done k) g = record g { done = set_flag k true g.done }
apply_write (set_success k b) g = record g { success = set_flag k b g.success }
apply_write (set_register_message s) g = record g { register_message = s }
apply_write (set_login_message s) g = record g { login_message = s }
apply_write (set_nickname_message s) g = record g { nickname_message = s }
apply_write (set_delete_message s) g = record g { delete_message = s }
apply_write (set_friend_message s) g = record g { friend_message = s }
apply_write (set_transfer_message s) g = record g { transfer_message = s }
apply_write (set_my_nickname s) g = record g { my_nickname = s }
apply_write (set_created_room n) g = record g { created_room = n }
apply_write (set_rooms rs) g = record g { rooms = rs }
apply_write (set_friends fs) g = record g { friends = fs }
apply_write (set_pendings fs) g = record g { pendings = fs }
apply_write (set_my_balance n) g = record g { my_balance = n }
apply_write (set_retries n) g = record g { retries = n }

unfoldable pub write_all : List Write → Globals → Globals
unfolding apply_write
write_all [] g = g
write_all (w ∷ ws) g = write_all ws (apply_write w g)

-- The packets that answer a request.
pub data ReplyPacket : Type 0 where
  s_register : Bool → List ℕ → ReplyPacket
  s_login : Bool → List ℕ → List ℕ → ReplyPacket
  s_create_room : Bool → ℤ → ReplyPacket
  s_get_room_list : Bool → List RoomInfo → ReplyPacket
  s_exit_room : Bool → ReplyPacket
  s_update_nickname : Bool → List ℕ → ReplyPacket
  s_delete_account : Bool → List ℕ → ReplyPacket
  s_request_friend : Bool → List ℕ → ReplyPacket
  s_accept_friend : Bool → List ℕ → ReplyPacket
  s_reject_friend : Bool → List ℕ → ReplyPacket
  s_get_pending_friends : Bool → List FriendInfo → ReplyPacket
  s_get_friend_list : Bool → List FriendInfo → ReplyPacket
  s_remove_friend : Bool → List ℕ → ReplyPacket
  s_get_balance : Bool → ℤ → ReplyPacket
  s_transfer : Bool → List ℕ → ℤ → ℤ → ReplyPacket

abbrev pub kind_of : ReplyPacket → Kind
kind_of (s_register ok msg) = registering
kind_of (s_login ok name msg) = login
kind_of (s_create_room ok room) = creating_room
kind_of (s_get_room_list ok rooms) = room_list
kind_of (s_exit_room ok) = exit_room
kind_of (s_update_nickname ok msg) = update_nickname
kind_of (s_delete_account ok msg) = delete_account
kind_of (s_request_friend ok msg) = request_friend
kind_of (s_accept_friend ok msg) = accept_friend
kind_of (s_reject_friend ok msg) = reject_friend
kind_of (s_get_pending_friends ok fs) = pending_friends
kind_of (s_get_friend_list ok fs) = friend_list
kind_of (s_remove_friend ok msg) = remove_friend
kind_of (s_get_balance ok n) = balance
kind_of (s_transfer ok msg retries n) = transfer

-- Under `if (Pkt.success())`.
abbrev pub on_success : Bool → Write → List Write
on_success true w = w ∷ []
on_success false w = []

-- The handlers.
unfoldable pub handle_reply : ReplyPacket → List Write
handle_reply (s_register ok msg) =
    set_success registering ok ∷ set_register_message msg ∷ set_done registering ∷ []
handle_reply (s_login ok name msg) =
    on_success ok (set_my_nickname name)
    ++ set_login_message msg ∷ set_success login ok ∷ set_done login ∷ []
handle_reply (s_create_room ok room) =
    set_success creating_room ok ∷ set_created_room room ∷ set_done creating_room ∷ []
handle_reply (s_get_room_list ok rooms) = on_success ok (set_rooms rooms) ++ set_done room_list ∷ []
handle_reply (s_exit_room ok) = set_done exit_room ∷ []
handle_reply (s_update_nickname ok msg) =
    set_success update_nickname ok ∷ set_nickname_message msg ∷ set_done update_nickname ∷ []
handle_reply (s_delete_account ok msg) =
    set_success delete_account ok ∷ set_delete_message msg ∷ set_done delete_account ∷ []
handle_reply (s_request_friend ok msg) =
    set_success request_friend ok ∷ set_friend_message msg ∷ set_done request_friend ∷ []
handle_reply (s_accept_friend ok msg) =
    set_success accept_friend ok ∷ set_friend_message msg ∷ set_done accept_friend ∷ []
handle_reply (s_reject_friend ok msg) =
    set_success reject_friend ok ∷ set_friend_message msg ∷ set_done reject_friend ∷ []
handle_reply (s_get_pending_friends ok fs) =
    on_success ok (set_pendings fs) ++ set_done pending_friends ∷ []
handle_reply (s_get_friend_list ok fs) = on_success ok (set_friends fs) ++ set_done friend_list ∷ []
handle_reply (s_remove_friend ok msg) =
    set_success remove_friend ok ∷ set_friend_message msg ∷ set_done remove_friend ∷ []
handle_reply (s_get_balance ok n) =
    set_success balance ok ∷ on_success ok (set_my_balance n) ++ set_done balance ∷ []
handle_reply (s_transfer ok msg retries n) =
    set_success transfer ok
      ∷ set_transfer_message msg
      ∷ set_retries retries
      ∷ on_success ok (set_my_balance n)
    ++ set_done transfer ∷ []

-- `WaitForResponse`, from poll `k` on; `polls` is what each poll of the flag reads.
unfoldable pub wait_for_response : ℕ → (ℕ → Bool) → ℕ → Bool × ℕ
wait_for_response zero polls k = (polls k, k)
wait_for_response (suc loops) polls k =
    let later = wait_for_response loops polls (suc k) in
    if polls k then (polls (suc k), suc k) else later
