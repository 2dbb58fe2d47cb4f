-- ===== src/Accounts/Friends/Laws.antt =====
-- The friend handlers of Server/Network/ClientPacketHandler.cpp, branch by branch.
use asio_chat_server.Common.{
  All, ℕ, ◌≡◌, ◌≢◌, refl, sym, ◌∙◌, ◌⊎◌, inl, inr, Bool, true, false, some, List, [], ◌∷◌, String,
  arith, if◌then◌else◌,
}
use asio_chat_server.Network.Reply.{Reply, s_accept_friend, s_reject_friend}
use asio_chat_server.Network.World.{GameSession, World, send}
use asio_chat_server.Security.InputValidator.{is_valid_email}
use asio_chat_server.Accounts.Store.{
  User, Friendship, pending, accepted, Change, modify_friendship, delete_friendship, Outcome, saved,
  conflict, failed, Store, apply_changes,
}
use asio_chat_server.Accounts.Store.Save.{StoreLaws, Meets, save-saved, save-unsaved}
use asio_chat_server.Accounts.Prelude.{
  Result, ok, fail, ◌>>=◌, ◌>>◌, check, begin, find_user_by_email, >>=-ok, first_or-ok,
}
use asio_chat_server.Accounts.Store.{is_saved, save}
use asio_chat_server.Accounts.Friends.{
  between, both_ids, flush_changes, pending_row, handle_accept_friend, handle_reject_friend,
}

module _ (store : Store) (laws : StoreLaws store) where
  -- A handler was answered with a failure, and no friendship changed but by other connections.
  abbrev pub Refused :
      (Bool → String → Reply)
      → (store.State → store.State)
      → ℕ
      → World store.State
      → World store.State
      → Type 0
  Refused reply others sid w w' =
      (msg : String) × (w'.sent ≡ (sid, reply false msg) ∷ w.sent)
      × ((store.friendships w'.db ≡ store.friendships w.db)
          ⊎ (store.friendships w'.db ≡ store.friendships (others w.db)))

  -- A handler was answered with success, and the tables took exactly these changes.
  abbrev pub Applied :
      (Bool → String → Reply)
      → (store.State → store.State)
      → ℕ
      → List Change
      → World store.State
      → World store.State
      → Type 0
  Applied reply others sid changes w w' =
      (fresh : ℕ → ℕ) × (w'.sent ≡ (sid, reply true "") ∷ w.sent)
      × (apply_changes fresh changes (store.users (others w.db), store.friendships (others w.db))
          ≡ some (store.users w'.db, store.friendships w'.db))

  pub flush_changes-cases :
      (reply : Bool → String → Reply) (others : store.State → store.State) (sid : ℕ)
      (r : Result (List Change)) (w : World store.State)
      → Refused reply others sid w (flush_changes store reply others sid r w)
        ⊎ ((changes : List Change) × (r ≡ ok changes)
            × Applied reply others sid changes w (flush_changes store reply others sid r w))
  unfolding flush_changes
  flush_changes-cases reply others sid (fail msg) w = inl (msg, refl, inl refl)
  flush_changes-cases reply others sid (ok changes) w =
      flushed (save store changes (others w.db)).0 refl
    where
      after : Outcome → World store.State
      after o =
          if is_saved o
          then send sid (reply true "") (record w { db = (save store changes (others w.db)).1 })
          else send sid (reply false "Database error")
              (record w { db = (save store changes (others w.db)).1 })

      flushed :
          (o : Outcome)
          → (save store changes (others w.db)).0 ≡ o
          → Refused reply others sid w (after o)
            ⊎ ((cs : List Change) × (ok changes ≡ ok cs) × Applied reply others sid cs w (after o))
      flushed saved e =
          let (fresh, applied) = save-saved store laws changes (others w.db) e in
          inr (changes, refl, (fresh, refl, applied))
      flushed conflict e = inl (
        "Database error",
        refl,
        inr ((save-unsaved store laws _ (others w.db) (λ s. cc (sym e ∙ s))).1),
      )
      flushed failed e = inl (
        "Database error",
        refl,
        inr ((save-unsaved store laws _ (others w.db) (λ s. cc (sym e ∙ s))).1),
      )

  -- Who is meant by a packet that names a user by address.
  pub record Parties (s : GameSession) (email : List ℕ) (st : store.State) (me other : ℕ)
      : Type 0 where
    pub email_valid : is_valid_email email ≡ true
    pub logged_in : s.player_id ≢ 0
    pub sender : me ≡ s.player_id
    pub row : User
    pub rows : List User
    pub found : store.users_by_email email st ≡ row ∷ rows
    pub named : other ≡ row.id

  pub both_ids-Parties :
      (s : GameSession) (email : List ℕ) (st : store.State) (me other : ℕ)
      → both_ids store s email st ≡ ok (me, other)
      → Parties s email st me other
  unfolding both_ids begin find_user_by_email
  both_ids-Parties s email st me other e =
      let (me', e₂, e₃) =
        >>=-ok (check (is_valid_email email) "Invalid email format" >> begin store s) _ e in
      let (row, e₄, e₅) = >>=-ok (find_user_by_email store email st) _ e₃ in
      let (rows, found) = first_or-ok "Email not found" (store.users_by_email email st) e₄ in
      record {
        email_valid = ground arith;
        logged_in = λ h. ground arith;
        sender = ground arith;
        row = row;
        rows = rows;
        found = found;
        named = ground arith;
      }

  -- The request that an answer works on: pending, and addressed to the sender.
  pub record Pending (s : GameSession) (email : List ℕ) (st : store.State) (f : Friendship)
      : Type 0 where
    pub other : ℕ
    pub parties : Parties s email st s.player_id other
    pub asked_by : f.from_user ≡ other
    pub addressed : f.to_user ≡ s.player_id
    pub is_pending : f.status ≡ pending

  pending_row-Pending :
      (s : GameSession) (email : List ℕ) (st : store.State) (f : Friendship)
      → pending_row store s email st ≡ ok f
      → Pending s email st f
  unfolding pending_row
  pending_row-Pending s email st f e =
      let ((me, other), e₀, e₁) = >>=-ok (both_ids store s email st) _ e in
      let p = both_ids-Parties s email st me other e₀ in
      let q = between other me (some pending) in
      let (rest, row) =
        first_or-ok "No pending request from this user" (store.friends_where q st) e₁ in
      let meets : All (Meets q) (f ∷ rest) = rw row at (laws.friends_meet q st) in
      record {
        other = other;
        parties = rw p.sender at p;
        asked_by = meets.0.from_meets;
        addressed = meets.0.to_meets ∙ p.sender;
        is_pending = meets.0.status_meets;
      }

  -- On a connection whose `Begin`, `Commit` and `Rollback` succeed, accepting a friend is refused with no friendship changed, or turns one request into a
  -- friendship: a pending one from the user with the address to the sender. Nobody but the one who
  -- was asked can accept.
  pub handle_accept_friend-cases :
      (others : store.State → store.State) (sid : ℕ) (email : List ℕ) (w : World store.State)
      → let w' = handle_accept_friend store others sid email w in
        Refused s_accept_friend others sid w w'
        ⊎ ((f : Friendship) × Pending (w.sessions sid) email w.db f
            × Applied s_accept_friend others sid
                (modify_friendship f (record f { status = accepted }) ∷ [])
                w
                w')
  unfolding handle_accept_friend
  handle_accept_friend-cases others sid email w =
      elim (flush_changes-cases s_accept_friend others sid
        (pending_row store (w.sessions sid) email w.db >>= λ f.
          ok (modify_friendship f (record f { status = accepted }) ∷ []))
        w) [
          | inl refusal ↦ inl refusal
          | inr (changes, e, done) ↦
              let (f, row, same) = >>=-ok (pending_row store (w.sessions sid) email w.db) _ e in
              let eq : (modify_friendship f (record f { status = accepted }) ∷ []) ≡ changes =
                ground arith in
              inr (f, pending_row-Pending (w.sessions sid) email w.db f row, rw eq done)
        ]

  -- Rejecting a friend is refused with no friendship changed, or deletes one request: a pending
  -- one from the user with the address to the sender.
  pub handle_reject_friend-cases :
      (others : store.State → store.State) (sid : ℕ) (email : List ℕ) (w : World store.State)
      → let w' = handle_reject_friend store others sid email w in
        Refused s_reject_friend others sid w w'
        ⊎ ((f : Friendship) × Pending (w.sessions sid) email w.db f
            × Applied s_reject_friend others sid (delete_friendship f ∷ []) w w')
  unfolding handle_reject_friend
  handle_reject_friend-cases others sid email w =
      elim (flush_changes-cases s_reject_friend others sid
        (pending_row store (w.sessions sid) email w.db >>= λ f. ok (delete_friendship f ∷ [])) w) [
          | inl refusal ↦ inl refusal
          | inr (changes, e, done) ↦
              let (f, row, same) = >>=-ok (pending_row store (w.sessions sid) email w.db) _ e in
              let eq : (delete_friendship f ∷ []) ≡ changes = ground arith in
              inr (f, pending_row-Pending (w.sessions sid) email w.db f row, rw eq done)
        ]
