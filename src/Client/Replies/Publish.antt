-- ===== src/Client/Replies/Publish.antt =====
-- Client/ServerPacketHandler.cpp and `WaitForResponse` of Client/ClientApp.cpp: the flag of a reply is
-- its last write, so a loop that sees it reads the whole reply.
use asio_chat_server.Common.{
  ℕ, zero, suc, ◌+◌, ◌≤◌, ◌≡◌, refl, sym, ap, subst, ◌∙◌, Bool, true, false, List, [], ◌∷◌, ◌++◌,
  arith, ltb, ◌==◌, take, length, length-append, take-append, take-all, inl, inr, Bool-cases,
  if_of_true,
}
use asio_chat_server.Client.Replies.{
  Kind, number_of, registering, login, creating_room, update_nickname, delete_account,
  request_friend, accept_friend, reject_friend, remove_friend, balance, transfer, Globals, Write,
  set_done, set_success, set_register_message, set_login_message, set_nickname_message,
  set_delete_message, set_friend_message, set_transfer_message, set_my_nickname, set_created_room,
  set_rooms, set_friends, set_pendings, set_my_balance, set_retries, apply_write, write_all,
  ReplyPacket, s_register, s_login, s_create_room, s_get_room_list, s_exit_room, s_update_nickname,
  s_delete_account, s_request_friend, s_accept_friend, s_reject_friend, s_get_pending_friends,
  s_get_friend_list, s_remove_friend, s_get_balance, s_transfer, kind_of, on_success, handle_reply,
  wait_for_response,
}

-- What a handler writes before the flag.
abbrev results : ReplyPacket → List Write
results (s_register ok msg) = set_success registering ok ∷ set_register_message msg ∷ []
results (s_login ok name msg) =
    on_success ok (set_my_nickname name) ++ set_login_message msg ∷ set_success login ok ∷ []
results (s_create_room ok room) = set_success creating_room ok ∷ set_created_room room ∷ []
results (s_get_room_list ok rooms) = on_success ok (set_rooms rooms)
results (s_exit_room ok) = []
results (s_update_nickname ok msg) = set_success update_nickname ok ∷ set_nickname_message msg ∷ []
results (s_delete_account ok msg) = set_success delete_account ok ∷ set_delete_message msg ∷ []
results (s_request_friend ok msg) = set_success request_friend ok ∷ set_friend_message msg ∷ []
results (s_accept_friend ok msg) = set_success accept_friend ok ∷ set_friend_message msg ∷ []
results (s_reject_friend ok msg) = set_success reject_friend ok ∷ set_friend_message msg ∷ []
results (s_get_pending_friends ok fs) = on_success ok (set_pendings fs)
results (s_get_friend_list ok fs) = on_success ok (set_friends fs)
results (s_remove_friend ok msg) = set_success remove_friend ok ∷ set_friend_message msg ∷ []
results (s_get_balance ok n) = set_success balance ok ∷ on_success ok (set_my_balance n)
results (s_transfer ok msg retries n) =
    set_success transfer ok
    ∷ set_transfer_message msg
    ∷ set_retries retries
    ∷ on_success ok (set_my_balance n)

abbrev Unmarked : List Write → Type 0
Unmarked [] = Unit
Unmarked (set_done k ∷ ws) = ⊥
Unmarked (w ∷ ws) = Unmarked ws

results-Unmarked : (r : ReplyPacket) → Unmarked (results r)
results-Unmarked (s_register ok msg) = tt
results-Unmarked (s_login true name msg) = tt
results-Unmarked (s_login false name msg) = tt
results-Unmarked (s_create_room ok room) = tt
results-Unmarked (s_get_room_list true rooms) = tt
results-Unmarked (s_get_room_list false rooms) = tt
results-Unmarked (s_exit_room ok) = tt
results-Unmarked (s_update_nickname ok msg) = tt
results-Unmarked (s_delete_account ok msg) = tt
results-Unmarked (s_request_friend ok msg) = tt
results-Unmarked (s_accept_friend ok msg) = tt
results-Unmarked (s_reject_friend ok msg) = tt
results-Unmarked (s_get_pending_friends true fs) = tt
results-Unmarked (s_get_pending_friends false fs) = tt
results-Unmarked (s_get_friend_list true fs) = tt
results-Unmarked (s_get_friend_list false fs) = tt
results-Unmarked (s_remove_friend ok msg) = tt
results-Unmarked (s_get_balance true n) = tt
results-Unmarked (s_get_balance false n) = tt
results-Unmarked (s_transfer true msg retries n) = tt
results-Unmarked (s_transfer false msg retries n) = tt

-- The flag is the last write.
handle_reply-results : (r : ReplyPacket) → handle_reply r ≡ results r ++ set_done (kind_of r) ∷ []
unfolding handle_reply
handle_reply-results (s_register ok msg) = refl
handle_reply-results (s_login true name msg) = refl
handle_reply-results (s_login false name msg) = refl
handle_reply-results (s_create_room ok room) = refl
handle_reply-results (s_get_room_list ok rooms) = refl
handle_reply-results (s_exit_room ok) = refl
handle_reply-results (s_update_nickname ok msg) = refl
handle_reply-results (s_delete_account ok msg) = refl
handle_reply-results (s_request_friend ok msg) = refl
handle_reply-results (s_accept_friend ok msg) = refl
handle_reply-results (s_reject_friend ok msg) = refl
handle_reply-results (s_get_pending_friends ok fs) = refl
handle_reply-results (s_get_friend_list ok fs) = refl
handle_reply-results (s_remove_friend ok msg) = refl
handle_reply-results (s_get_balance ok n) = refl
handle_reply-results (s_transfer ok msg retries n) = refl

apply_apply_write-done :
    (w : Write) (g : Globals) → Unmarked (w ∷ []) → (apply_write w g).done ≡ g.done
unfolding apply_write
apply_apply_write-done (set_done k) g v = absurd v
apply_apply_write-done (set_success k b) g v = refl
apply_apply_write-done (set_register_message s) g v = refl
apply_apply_write-done (set_login_message s) g v = refl
apply_apply_write-done (set_nickname_message s) g v = refl
apply_apply_write-done (set_delete_message s) g v = refl
apply_apply_write-done (set_friend_message s) g v = refl
apply_apply_write-done (set_transfer_message s) g v = refl
apply_apply_write-done (set_my_nickname s) g v = refl
apply_apply_write-done (set_created_room n) g v = refl
apply_apply_write-done (set_rooms rs) g v = refl
apply_apply_write-done (set_friends fs) g v = refl
apply_apply_write-done (set_pendings fs) g v = refl
apply_apply_write-done (set_my_balance n) g v = refl
apply_apply_write-done (set_retries n) g v = refl

Unmarked-cons : (w : Write) (ws : List Write) → Unmarked (w ∷ ws) → Unmarked (w ∷ []) × Unmarked ws
Unmarked-cons (set_done k) ws v = absurd v
Unmarked-cons (set_success k b) ws v = (tt, v)
Unmarked-cons (set_register_message s) ws v = (tt, v)
Unmarked-cons (set_login_message s) ws v = (tt, v)
Unmarked-cons (set_nickname_message s) ws v = (tt, v)
Unmarked-cons (set_delete_message s) ws v = (tt, v)
Unmarked-cons (set_friend_message s) ws v = (tt, v)
Unmarked-cons (set_transfer_message s) ws v = (tt, v)
Unmarked-cons (set_my_nickname s) ws v = (tt, v)
Unmarked-cons (set_created_room n) ws v = (tt, v)
Unmarked-cons (set_rooms rs) ws v = (tt, v)
Unmarked-cons (set_friends fs) ws v = (tt, v)
Unmarked-cons (set_pendings fs) ws v = (tt, v)
Unmarked-cons (set_my_balance n) ws v = (tt, v)
Unmarked-cons (set_retries n) ws v = (tt, v)

write_all-done :
    (n : ℕ) (ws : List Write) (g : Globals) → Unmarked ws → (write_all (take n ws) g).done ≡ g.done
unfolding write_all
write_all-done zero ws g v = refl
write_all-done (suc n) [] g v = refl
write_all-done (suc n) (w ∷ ws) g v =
    let (one, rest) = Unmarked-cons w ws v in
    write_all-done n ws (apply_write w g) rest ∙ apply_apply_write-done w g one

-- The state that a reader sees when `n` writes of a handler are done.
abbrev pub seen : ReplyPacket → Globals → ℕ → Globals
seen r g n = write_all (take n (handle_reply r)) g

-- The flag is seen only when all is written.
seen-whole :
    (r : ReplyPacket) (g : Globals) (n : ℕ)
    → g.done (kind_of r) ≡ false
    → (seen r g n).done (kind_of r) ≡ true
    → length (handle_reply r) ≤ n
seen-whole r g n clear flag = elim (Bool-cases (ltb (length (results r)) n)) [
  | inl late ↦
      let size =
        ap length (handle_reply-results r)
        ∙ length-append (results r) (set_done (kind_of r) ∷ []) in
      ground arith
  | inr early ↦
      let room : n ≤ length (results r) = ground arith in
      let cut =
        ap (take n) (handle_reply-results r)
        ∙ take-append n (results r) (set_done (kind_of r) ∷ []) room in
      let same =
        ap (λ ws. (write_all ws g).done (kind_of r)) cut
        ∙ ap (λ (f : Kind → Bool). f (kind_of r))
            (write_all-done n (results r) g (results-Unmarked r)) in
      absurd (let f = sym clear ∙ sym same ∙ flag in cc)
]

marked :
    (ws : List Write) (k : Kind) (g : Globals) → (write_all (ws ++ set_done k ∷ []) g).done k ≡ true
unfolding write_all
marked [] k g =
    let same : (number_of k == number_of k) ≡ true = grind arith in if_of_true true (g.done k) same
marked (w ∷ ws) k g = marked ws k (apply_write w g)

whole-marked :
    (r : ReplyPacket) (g : Globals) (n : ℕ)
    → length (handle_reply r) ≤ n
    → (seen r g n).done (kind_of r) ≡ true
whole-marked r g n h =
    ap (λ ws. (write_all ws g).done (kind_of r))
      (take-all n (handle_reply r) h ∙ handle_reply-results r)
    ∙ marked (results r) (kind_of r) g

-- How a wait ends: it reports the last poll, and it sees a flag that is up at the last poll, if flags
-- stay up.
wait_for_response-last :
    (loops : ℕ) (polls : ℕ → Bool) (k : ℕ)
    → ((wait_for_response loops polls k).0 ≡ polls (wait_for_response loops polls k).1)
      × (((i : ℕ) → polls i ≡ true → polls (suc i) ≡ true)
          → polls (k + loops) ≡ true
          → (wait_for_response loops polls k).0 ≡ true)
unfolding wait_for_response
wait_for_response-last zero polls k =
    (refl, λ stays up. subst (λ i. polls i ≡ true) (omega arith) up)
wait_for_response-last (suc loops) polls k = elim (Bool-cases (polls k)) [
  | inl now ↦ (rw now refl, λ stays up. rw now (stays k now))
  | inr later ↦
      let (a, b) = wait_for_response-last loops polls (suc k) in
      (rw later a, λ stays up. rw later (b stays (subst (λ i. polls i ≡ true) (omega arith) up)))
]

-- The wait on a reply whose writes come one after the other, `pos i` of them before the poll `i`.
abbrev pub waited : ℕ → ReplyPacket → Globals → (ℕ → ℕ) → Bool × ℕ
waited loops r g pos = wait_for_response loops (λ i. (seen r g (pos i)).done (kind_of r)) 0

-- A loop that waits with the flag cleared sees a reply whole or not at all: if the wait reports the
-- flag, every read from then on finds all that the handler wrote; and the wait does report it if the
-- handler has returned by the last poll. For every reply, every number of polls, and every pace of
-- the handler.
pub waited-whole :
    (loops : ℕ) (r : ReplyPacket) (g : Globals) (pos : ℕ → ℕ)
    → g.done (kind_of r) ≡ false
    → ((i j : ℕ) → i ≤ j → pos i ≤ pos j)
    → ((waited loops r g pos).0 ≡ true
        → (j : ℕ) → (waited loops r g pos).1 ≤ j
        → seen r g (pos j) ≡ write_all (handle_reply r) g)
      × (length (handle_reply r) ≤ pos loops → (waited loops r g pos).0 ≡ true)
waited-whole loops r g pos clear grows =
    let polls = λ (i : ℕ). (seen r g (pos i)).done (kind_of r) in
    let (last, found) = wait_for_response-last loops polls 0 in
    (
      λ up j later.
          let when = (waited loops r g pos).1 in
          let enough = seen-whole r g (pos when) clear (sym last ∙ up) in
          let more = grows when j later in
          ap (λ ws. write_all ws g) (take-all (pos j) (handle_reply r) (omega arith)),
      λ enough.
          found
            (λ i up.
              let now = seen-whole r g (pos i) clear up in
              let more = grows i (suc i) (omega arith) in
              whole-marked r g (pos (suc i)) (omega arith))
            (whole-marked r g (pos (0 + loops))
              (subst (λ i. length (handle_reply r) ≤ pos i) (omega arith) enough)),
    )
