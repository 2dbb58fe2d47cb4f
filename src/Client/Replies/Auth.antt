-- ===== src/Client/Replies/Auth.antt =====
-- `ClientApp::AuthLoop` of Client/ClientApp.cpp: a turn of the menu and the loop up to a login. The
-- packets whose handlers run before and in a wait are parameters, and so are the lines that are read.
use asio_chat_server.Common.{
  ℕ, ◌≡◌, ◌⊎◌, refl, sym, ap, ◌∙◌, Bool, true, false, not, Option, none, some, List, [], ◌∷◌, ◌++◌,
  if◌then◌else◌, bytes_eq, codes, is_empty, inl, inr, if_both, Bool-cases, none≢some, arith,
}
use asio_chat_server.Client.Replies.{
  Kind, registering, login, Globals, set_flag, write_all, ReplyPacket, s_register, s_login,
  s_create_room, s_get_room_list, s_exit_room, s_update_nickname, s_delete_account,
  s_request_friend, s_accept_friend, s_reject_friend, s_get_pending_friends, s_get_friend_list,
  s_remove_friend, s_get_balance, s_transfer, handle_reply,
}

pub data Color : Type 0 where
  plain : Color
  error : Color
  good : Color

-- `LastMessage` with its color, and `bLoggedIn`.
pub record Shown : Type 0 where
  pub message : List ℕ
  pub color : Color
  pub logged_in : Bool

abbrev pub failure : List ℕ → Shown
failure text = record { message = text; color = error; logged_in = false }

abbrev pub no_answer : List ℕ
no_answer =
    236 ∷ 132 ∷ 156 ∷ 235 ∷ 178 ∷ 132 ∷ 32 ∷ 236 ∷ 157 ∷ 145 ∷ 235 ∷ 139 ∷ 181 ∷ 32 ∷ 236 ∷ 151
    ∷ 134 ∷ 236 ∷ 157 ∷ 140 ∷ []

abbrev pub registered_text : List ℕ
registered_text =
    237 ∷ 154 ∷ 140 ∷ 236 ∷ 155 ∷ 144 ∷ 234 ∷ 176 ∷ 128 ∷ 236 ∷ 158 ∷ 133 ∷ 32 ∷ 236 ∷ 132 ∷ 177
    ∷ 234 ∷ 179 ∷ 181 ∷ 46 ∷ 32 ∷ 235 ∷ 161 ∷ 156 ∷ 234 ∷ 183 ∷ 184 ∷ 236 ∷ 157 ∷ 184 ∷ 236 ∷ 157
    ∷ 132 ∷ 32 ∷ 236 ∷ 167 ∷ 132 ∷ 237 ∷ 150 ∷ 137 ∷ 237 ∷ 149 ∷ 180 ∷ 32 ∷ 236 ∷ 163 ∷ 188 ∷ 236
    ∷ 132 ∷ 184 ∷ 236 ∷ 154 ∷ 148 ∷ 46 ∷ []

abbrev pub register_failed : List ℕ
register_failed =
    237 ∷ 154 ∷ 140 ∷ 236 ∷ 155 ∷ 144 ∷ 234 ∷ 176 ∷ 128 ∷ 236 ∷ 158 ∷ 133 ∷ 32 ∷ 236 ∷ 139 ∷ 164
    ∷ 237 ∷ 140 ∷ 168 ∷ 58 ∷ 32 ∷ []

abbrev pub login_failed : List ℕ
login_failed =
    235 ∷ 161 ∷ 156 ∷ 234 ∷ 183 ∷ 184 ∷ 236 ∷ 157 ∷ 184 ∷ 32 ∷ 236 ∷ 139 ∷ 164 ∷ 237 ∷ 140 ∷ 168
    ∷ 58 ∷ 32 ∷ []

abbrev pub check_text : List ℕ
check_text =
    236 ∷ 157 ∷ 180 ∷ 235 ∷ 169 ∷ 148 ∷ 236 ∷ 157 ∷ 188 ∷ 47 ∷ 235 ∷ 185 ∷ 132 ∷ 235 ∷ 176 ∷ 128
    ∷ 235 ∷ 178 ∷ 136 ∷ 237 ∷ 152 ∷ 184 ∷ 235 ∷ 165 ∷ 188 ∷ 32 ∷ 237 ∷ 153 ∷ 149 ∷ 236 ∷ 157 ∷ 184
    ∷ 237 ∷ 149 ∷ 180 ∷ 32 ∷ 236 ∷ 163 ∷ 188 ∷ 236 ∷ 132 ∷ 184 ∷ 236 ∷ 154 ∷ 148 ∷ []

abbrev pub wrong_choice : List ℕ
wrong_choice =
    236 ∷ 158 ∷ 152 ∷ 235 ∷ 170 ∷ 187 ∷ 235 ∷ 144 ∷ 156 ∷ 32 ∷ 236 ∷ 132 ∷ 160 ∷ 237 ∷ 131 ∷ 157
    ∷ 236 ∷ 158 ∷ 133 ∷ 235 ∷ 139 ∷ 136 ∷ 235 ∷ 139 ∷ 164 ∷ 46 ∷ 32 ∷ 49 ∷ 32 ∷ 235 ∷ 152 ∷ 144
    ∷ 235 ∷ 138 ∷ 148 ∷ 32 ∷ 50 ∷ 32 ∷ 235 ∷ 165 ∷ 188 ∷ 32 ∷ 236 ∷ 158 ∷ 133 ∷ 235 ∷ 160 ∷ 165
    ∷ 237 ∷ 149 ∷ 180 ∷ 32 ∷ 236 ∷ 163 ∷ 188 ∷ 236 ∷ 132 ∷ 184 ∷ 236 ∷ 154 ∷ 148 ∷ 46 ∷ []

unfoldable pub register_outcome : Globals → Shown
register_outcome g =
    if not (g.done registering)
    then failure no_answer
    else if g.success registering
    then record { message = registered_text; color = good; logged_in = false }
    else failure (register_failed ++ g.register_message)

unfoldable pub login_outcome : Globals → Shown
login_outcome g =
    if not (g.done login)
    then failure no_answer
    else if g.success login
    then record { message = []; color = plain; logged_in = true }
    else failure
        (login_failed ++ (if is_empty g.login_message then check_text else g.login_message))

-- The two flags of a request before it is sent.
abbrev pub cleared : Kind → Globals → Globals
cleared k g = record g { done = set_flag k false g.done; success = set_flag k false g.success }

-- The handlers of these packets, one after the other.
abbrev pub handle_all : List ReplyPacket → Globals → Globals
handle_all [] g = g
handle_all (r ∷ rs) g = handle_all rs (write_all (handle_reply r) g)

-- A choice that is read, the packets that have come when its flags are reset, and those that come
-- from then to the end of the wait.
pub record Turn : Type 0 where
  pub before : List ReplyPacket
  pub choice : List ℕ
  pub during : List ReplyPacket

-- A turn of the menu.
unfoldable pub auth_turn : List ReplyPacket → List ℕ → Globals → Shown × Globals
unfolding register_outcome login_outcome
auth_turn during choice g =
    let asked = handle_all during (cleared registering g) in
    let entered = handle_all during (cleared login g) in
    if bytes_eq choice (codes "1")
    then (register_outcome asked, asked)
    else if bytes_eq choice (codes "2")
    then (login_outcome entered, entered)
    else (failure wrong_choice, g)

-- The loop; `none` while nobody has logged in.
unfoldable pub auth_loop : List Turn → Globals → Option Globals
unfolding auth_turn
auth_loop [] g = none
auth_loop (turn ∷ turns) g =
    let (shown, g') = auth_turn turn.during turn.choice (handle_all turn.before g) in
    let rest = auth_loop turns g' in if shown.logged_in then some g' else rest

-- What a turn shows, for the replies that a server sends and for none, whatever the variables were.
pub record Turns (g : Globals) (ok : Bool) (name msg : List ℕ) : Type 0 where
  pub registers : (auth_turn (s_register ok msg ∷ []) (codes "1") g).0 ≡ (
      if ok
      then record { message = registered_text; color = good; logged_in = false }
      else failure (register_failed ++ msg))
  pub enters : (auth_turn (s_login ok name msg ∷ []) (codes "2") g).0.logged_in ≡ ok
  pub named :
      (auth_turn (s_login ok name msg ∷ []) (codes "2") g).1.my_nickname
      ≡ (if ok then name else g.my_nickname)
  pub unanswered_register : (auth_turn [] (codes "1") g).0 ≡ failure no_answer
  pub unanswered_login : (auth_turn [] (codes "2") g).0 ≡ failure no_answer

-- A turn shows the outcome of its own request: a registration succeeds or fails as the reply says,
-- with its text, a login is one exactly if the reply says so, and then takes over the name, and
-- without a reply the turn says that none came. What earlier requests left in the variables makes no
-- difference.
pub auth_turn-Turns : (g : Globals) (ok : Bool) (name msg : List ℕ) → Turns g ok name msg
unfolding auth_turn handle_reply write_all bytes_eq
auth_turn-Turns g true name msg = record {
  registers = refl;
  enters = refl;
  named = refl;
  unanswered_register = refl;
  unanswered_login = refl;
}
auth_turn-Turns g false name msg = record {
  registers = refl;
  enters = refl;
  named = refl;
  unanswered_register = refl;
  unanswered_login = refl;
}

register_outcome-stays : (g : Globals) → (register_outcome g).logged_in ≡ false
unfolding register_outcome
register_outcome-stays g =
    if_both (λ (s : Shown). s.logged_in ≡ false) (not (g.done registering)) _ _ refl
      (if_both (λ (s : Shown). s.logged_in ≡ false) (g.success registering) _ _ refl refl)

login_outcome-entered : (g : Globals) → (login_outcome g).logged_in ≡ true → g.success login ≡ true
unfolding login_outcome
login_outcome-entered g h = ground (arith, h)

-- A packet that says a login succeeded is among these.
abbrev pub LoginAmong : List ReplyPacket → Type 0
LoginAmong rs =
    (front back : List ReplyPacket) × (name msg : List ℕ) × (rs
      ≡ front ++ s_login true name msg ∷ back)

-- One packet sets the flag of the login only if it says so.
reply-success :
    (r : ReplyPacket) (g : Globals)
    → (write_all (handle_reply r) g).success login ≡ true
    → (g.success login ≡ true) ⊎ ((name msg : List ℕ) × (r ≡ s_login true name msg))
unfolding handle_reply write_all
reply-success (s_register ok msg) g h = inl h
reply-success (s_login true name msg) g h = inr (name, msg, refl)
reply-success (s_login false name msg) g h = absurd (let f : false ≡ true = h in cc)
reply-success (s_create_room ok room) g h = inl h
reply-success (s_get_room_list true rooms) g h = inl h
reply-success (s_get_room_list false rooms) g h = inl h
reply-success (s_exit_room ok) g h = inl h
reply-success (s_update_nickname ok msg) g h = inl h
reply-success (s_delete_account ok msg) g h = inl h
reply-success (s_request_friend ok msg) g h = inl h
reply-success (s_accept_friend ok msg) g h = inl h
reply-success (s_reject_friend ok msg) g h = inl h
reply-success (s_get_pending_friends true fs) g h = inl h
reply-success (s_get_pending_friends false fs) g h = inl h
reply-success (s_get_friend_list true fs) g h = inl h
reply-success (s_get_friend_list false fs) g h = inl h
reply-success (s_remove_friend ok msg) g h = inl h
reply-success (s_get_balance true n) g h = inl h
reply-success (s_get_balance false n) g h = inl h
reply-success (s_transfer true msg retries n) g h = inl h
reply-success (s_transfer false msg retries n) g h = inl h

handle_all-success :
    (rs : List ReplyPacket) (g : Globals)
    → (handle_all rs g).success login ≡ true
    → (g.success login ≡ true) ⊎ LoginAmong rs
handle_all-success [] g h = inl h
handle_all-success (r ∷ rs) g h = elim (handle_all-success rs (write_all (handle_reply r) g) h) [
  | inl set ↦ elim (reply-success r g set) [
    | inl before ↦ inl before
    | inr (name, msg, e) ↦ inr ([], rs, name, msg, ap (λ (x : ReplyPacket). x ∷ rs) e)
  ]
  | inr (front, back, name, msg, e) ↦ inr (r ∷ front, back, name, msg, ap (◌∷◌ r) e)
]

auth_turn-entered :
    (during : List ReplyPacket) (choice : List ℕ) (g : Globals)
    → (auth_turn during choice g).0.logged_in ≡ true
    → (bytes_eq choice (codes "2") ≡ true) × LoginAmong during
unfolding auth_turn
auth_turn-entered during choice g h =
    let asked = handle_all during (cleared registering g) in
    let entered = handle_all during (cleared login g) in
    elim (Bool-cases (bytes_eq choice (codes "1"))) [
      | inl one ↦ let f = sym (register_outcome-stays asked) ∙ (rw one at h) in absurd cc
      | inr not_one ↦ elim (Bool-cases (bytes_eq choice (codes "2"))) [
        | inl two ↦ (
          two,
          elim (handle_all-success during (cleared login g)
              (login_outcome-entered entered (rw two at (rw not_one at h)))) [
                | inl stale ↦ absurd (let f : false ≡ true = stale in cc)
                | inr among ↦ among
              ],
        )
        | inr neither ↦ absurd (let f = rw neither at (rw not_one at h) in cc)
      ]
    ]

-- One of the turns is a login with its reply.
abbrev pub Logs : List Turn → Type 0
Logs turns =
    (front back : List Turn) × (turn : Turn) × (turns ≡ front ++ turn ∷ back)
    × (bytes_eq turn.choice (codes "2") ≡ true)
    × LoginAmong turn.during

-- The loop is left for the lobby only by a turn that chose the login and in which, after its flags
-- were reset, the handler ran of a packet that says the login succeeded: whatever is typed, whatever
-- packets come, and whatever the variables were.
pub auth_loop-entered :
    (turns : List Turn) (g g' : Globals) → auth_loop turns g ≡ some g' → Logs turns
unfolding auth_loop
auth_loop-entered [] g g' e = absurd (none≢some g' e)
auth_loop-entered (turn ∷ turns) g g' e =
    let result = auth_turn turn.during turn.choice (handle_all turn.before g) in
    elim (Bool-cases result.0.logged_in) [
      | inl entered ↦ (
        [],
        turns,
        turn,
        refl,
        (auth_turn-entered turn.during turn.choice (handle_all turn.before g) entered).0,
        (auth_turn-entered turn.during turn.choice (handle_all turn.before g) entered).1,
      )
      | inr still ↦
          let later = auth_loop-entered turns result.1 g' (rw still at e) in
          (turn ∷ later.0, later.1, later.2, ap (◌∷◌ turn) later.3, later.4, later.5)
    ]
