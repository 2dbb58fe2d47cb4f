-- ===== src/Network/Dispatch/Table.antt =====
-- What the table of Server/Network/ClientPacketHandler.h holds for every id.
use asio_chat_server.Common.{
  ℕ, suc, ◌+◌, length, ◌⊎◌, inl, inr, if_of_true, if_of_false, sym, ap, ◌∙◌, Bool-cases, ◌&&◌, leb,
  Bool, true, ◌≡◌, ◌≢◌, refl, ◌≤◌, ◌<◌, arith, ltb, Option, none, some, List, [], ◌∷◌, ◌==◌,
}
use asio_chat_server.Network.Dispatch.{
  PacketName, pkt_c_register, pkt_s_register, pkt_c_login, pkt_s_login, pkt_c_create_room,
  pkt_s_create_room, pkt_c_get_room_list, pkt_s_get_room_list, pkt_c_enter_room, pkt_s_enter_room,
  pkt_c_exit_room, pkt_s_exit_room, pkt_c_update_nickname, pkt_s_update_nickname,
  pkt_c_delete_account, pkt_s_delete_account, pkt_c_chat, pkt_s_chat, pkt_c_shout, pkt_s_shout,
  pkt_c_whisper, pkt_s_whisper, pkt_c_request_friend, pkt_s_request_friend, pkt_c_accept_friend,
  pkt_s_accept_friend, pkt_c_reject_friend, pkt_s_reject_friend, pkt_c_get_pending_friends,
  pkt_s_get_pending_friends, pkt_c_get_friend_list, pkt_s_get_friend_list, pkt_c_remove_friend,
  pkt_s_remove_friend, pkt_c_get_balance, pkt_s_get_balance, pkt_c_transfer, pkt_s_transfer,
  pkt_s_transfer_received, pkt_c_ai_chat, pkt_s_ai_chat, id_of, Handler, handle_invalid,
  on_accept_friend_packet, on_ai_chat_packet, on_chat_packet, on_create_room_packet,
  on_delete_account_packet, on_enter_room_packet, on_exit_room_packet, on_get_balance_packet,
  on_get_friend_list_packet, on_get_pending_friends_packet, on_get_room_list_packet,
  on_login_packet, on_register_packet, on_reject_friend_packet, on_remove_friend_packet,
  on_request_friend_packet, on_shout_packet, on_transfer_packet, on_update_nickname_packet,
  on_whisper_packet, assignments, assigned, table_length, table_entry,
}

-- The kinds of packet that a client sends, with the handlers of their names.
abbrev pub handler_for : PacketName → Handler
handler_for pkt_c_register = on_register_packet
handler_for pkt_s_register = handle_invalid
handler_for pkt_c_login = on_login_packet
handler_for pkt_s_login = handle_invalid
handler_for pkt_c_create_room = on_create_room_packet
handler_for pkt_s_create_room = handle_invalid
handler_for pkt_c_get_room_list = on_get_room_list_packet
handler_for pkt_s_get_room_list = handle_invalid
handler_for pkt_c_enter_room = on_enter_room_packet
handler_for pkt_s_enter_room = handle_invalid
handler_for pkt_c_exit_room = on_exit_room_packet
handler_for pkt_s_exit_room = handle_invalid
handler_for pkt_c_update_nickname = on_update_nickname_packet
handler_for pkt_s_update_nickname = handle_invalid
handler_for pkt_c_delete_account = on_delete_account_packet
handler_for pkt_s_delete_account = handle_invalid
handler_for pkt_c_chat = on_chat_packet
handler_for pkt_s_chat = handle_invalid
handler_for pkt_c_shout = on_shout_packet
handler_for pkt_s_shout = handle_invalid
handler_for pkt_c_whisper = on_whisper_packet
handler_for pkt_s_whisper = handle_invalid
handler_for pkt_c_request_friend = on_request_friend_packet
handler_for pkt_s_request_friend = handle_invalid
handler_for pkt_c_accept_friend = on_accept_friend_packet
handler_for pkt_s_accept_friend = handle_invalid
handler_for pkt_c_reject_friend = on_reject_friend_packet
handler_for pkt_s_reject_friend = handle_invalid
handler_for pkt_c_get_pending_friends = on_get_pending_friends_packet
handler_for pkt_s_get_pending_friends = handle_invalid
handler_for pkt_c_get_friend_list = on_get_friend_list_packet
handler_for pkt_s_get_friend_list = handle_invalid
handler_for pkt_c_remove_friend = on_remove_friend_packet
handler_for pkt_s_remove_friend = handle_invalid
handler_for pkt_c_get_balance = on_get_balance_packet
handler_for pkt_s_get_balance = handle_invalid
handler_for pkt_c_transfer = on_transfer_packet
handler_for pkt_s_transfer = handle_invalid
handler_for pkt_s_transfer_received = handle_invalid
handler_for pkt_c_ai_chat = on_ai_chat_packet
handler_for pkt_s_ai_chat = handle_invalid

abbrev all_names : List PacketName
all_names =
    pkt_c_register ∷ pkt_s_register ∷ pkt_c_login ∷ pkt_s_login ∷ pkt_c_create_room
    ∷ pkt_s_create_room ∷ pkt_c_get_room_list ∷ pkt_s_get_room_list ∷ pkt_c_enter_room
    ∷ pkt_s_enter_room ∷ pkt_c_exit_room ∷ pkt_s_exit_room ∷ pkt_c_update_nickname
    ∷ pkt_s_update_nickname ∷ pkt_c_delete_account ∷ pkt_s_delete_account ∷ pkt_c_chat ∷ pkt_s_chat
    ∷ pkt_c_shout ∷ pkt_s_shout ∷ pkt_c_whisper ∷ pkt_s_whisper ∷ pkt_c_request_friend
    ∷ pkt_s_request_friend ∷ pkt_c_accept_friend ∷ pkt_s_accept_friend ∷ pkt_c_reject_friend
    ∷ pkt_s_reject_friend ∷ pkt_c_get_pending_friends ∷ pkt_s_get_pending_friends
    ∷ pkt_c_get_friend_list ∷ pkt_s_get_friend_list ∷ pkt_c_remove_friend ∷ pkt_s_remove_friend
    ∷ pkt_c_get_balance ∷ pkt_s_get_balance ∷ pkt_c_transfer ∷ pkt_s_transfer
    ∷ pkt_s_transfer_received ∷ pkt_c_ai_chat ∷ pkt_s_ai_chat ∷ []

-- What the table has at an id.
abbrev pub Entry : ℕ → Option Handler → Type 0
Entry id e =
    ((p : PacketName) × (id_of p ≡ id) × (e ≡ some (handler_for p)))
    ⊎ (((id < 1000) ⊎ (1040 < id)) × (id < table_length) × (e ≡ some handle_invalid))
    ⊎ ((table_length ≤ id) × (e ≡ none))

-- Names with ids one after the other.
abbrev in_order : ℕ → List PacketName → Bool
in_order k [] = true
in_order k (p ∷ ps) = id_of p == k && in_order (suc k) ps

entry-known : (p : PacketName) → table_entry (id_of p) ≡ some (handler_for p)
unfolding table_entry
entry-known pkt_c_register = refl
entry-known pkt_s_register = refl
entry-known pkt_c_login = refl
entry-known pkt_s_login = refl
entry-known pkt_c_create_room = refl
entry-known pkt_s_create_room = refl
entry-known pkt_c_get_room_list = refl
entry-known pkt_s_get_room_list = refl
entry-known pkt_c_enter_room = refl
entry-known pkt_s_enter_room = refl
entry-known pkt_c_exit_room = refl
entry-known pkt_s_exit_room = refl
entry-known pkt_c_update_nickname = refl
entry-known pkt_s_update_nickname = refl
entry-known pkt_c_delete_account = refl
entry-known pkt_s_delete_account = refl
entry-known pkt_c_chat = refl
entry-known pkt_s_chat = refl
entry-known pkt_c_shout = refl
entry-known pkt_s_shout = refl
entry-known pkt_c_whisper = refl
entry-known pkt_s_whisper = refl
entry-known pkt_c_request_friend = refl
entry-known pkt_s_request_friend = refl
entry-known pkt_c_accept_friend = refl
entry-known pkt_s_accept_friend = refl
entry-known pkt_c_reject_friend = refl
entry-known pkt_s_reject_friend = refl
entry-known pkt_c_get_pending_friends = refl
entry-known pkt_s_get_pending_friends = refl
entry-known pkt_c_get_friend_list = refl
entry-known pkt_s_get_friend_list = refl
entry-known pkt_c_remove_friend = refl
entry-known pkt_s_remove_friend = refl
entry-known pkt_c_get_balance = refl
entry-known pkt_s_get_balance = refl
entry-known pkt_c_transfer = refl
entry-known pkt_s_transfer = refl
entry-known pkt_s_transfer_received = refl
entry-known pkt_c_ai_chat = refl
entry-known pkt_s_ai_chat = refl

known-find :
    (k id : ℕ) (ps : List PacketName)
    → in_order k ps ≡ true
    → k ≤ id
    → id < k + length ps
    → (p : PacketName) × (id_of p ≡ id)
known-find k id [] r h l = absurd (omega arith)
known-find k id (p ∷ ps) r h l = elim (Bool-cases (k == id)) [
  | inl e ↦ (p, ground arith)
  | inr e ↦ known-find (suc k) id ps (ground arith) (ground arith) (omega arith)
]

abbrev Absent : ℕ → List (ℕ × Handler) → Type 0
Absent id [] = Unit
Absent id ((k, h) ∷ rest) = (id ≢ k) × Absent id rest

assigned-Absent :
    (id : ℕ) (xs : List (ℕ × Handler)) → Absent id xs → assigned id xs ≡ handle_invalid
assigned-Absent id [] a = refl
assigned-Absent id ((k, h) ∷ rest) (d, a) = ground (arith, assigned-Absent id rest a)

-- Whether all ids that are assigned are in the enumeration.
abbrev in_range : List (ℕ × Handler) → Bool
in_range [] = true
in_range ((k, h) ∷ rest) = leb 1000 k && (leb k 1040 && in_range rest)

outside-Absent :
    (id : ℕ) (xs : List (ℕ × Handler))
    → (id < 1000) ⊎ (1040 < id)
    → in_range xs ≡ true
    → Absent id xs
outside-Absent id [] out r = tt
outside-Absent id ((k, h) ∷ rest) out r =
    (λ e. ground arith, outside-Absent id rest out (ground arith))

outside-Entry : (id : ℕ) → (id < 1000) ⊎ (1040 < id) → Entry id (table_entry id)
unfolding table_entry
outside-Entry id out = elim (Bool-cases (ltb id table_length)) [
  | inl e ↦ inr (
      inl (
        out,
        ground arith,
        if_of_true _ _ e
            ∙ ap some (assigned-Absent id assignments (outside-Absent id assignments out refl)),
      ))
  | inr e ↦ inr (inr (ground arith, if_of_false _ _ e))
]

-- For every id: the handler of its name, if it is in the enumeration and clients send it;
-- `Handle_INVALID` for the names that the server sends and outside the enumeration; and the id 65535
-- is behind the end of the table.
pub table_entry-Entry : (id : ℕ) → Entry id (table_entry id)
table_entry-Entry id = elim (Bool-cases (ltb id 1000)) [
  | inl low ↦ outside-Entry id (inl (ground arith))
  | inr at_least ↦ elim (Bool-cases (ltb 1040 id)) [
    | inl high ↦ outside-Entry id (inr (ground arith))
    | inr at_most ↦
        let (p, named) = known-find 1000 id all_names refl (ground arith) (ground arith) in
        inl (p, named, ap table_entry (sym named) ∙ entry-known p)
  ]
]
