-- ===== src/Accounts/Friends/Requests.antt =====
-- Asking for a friendship and ending one (Server/Network/ClientPacketHandler.cpp), branch by branch.
use asio_chat_server.Common.{
  ℕ, ◌≡◌, ◌≢◌, ◌⊎◌, inl, inr, none, some, List, [], ◌∷◌, ◌++◌, arith, ◌&&◌, if◌then◌else◌, is_empty,
  map,
}
use asio_chat_server.Network.Reply.{s_remove_friend}
use asio_chat_server.Network.World.{GameSession, World}
use asio_chat_server.Accounts.Store.{
  Friendship, pending, accepted, Change, delete_friendship, Store,
}
use asio_chat_server.Accounts.Store.Save.{StoreLaws}
use asio_chat_server.Accounts.Prelude.{Result, ok, fail, >>=-ok}
use asio_chat_server.Accounts.Friends.{between, both_ids, remove_changes, handle_remove_friend}
use asio_chat_server.Accounts.Friends.Laws.{
  Refused, Applied, Parties, flush_changes-cases, both_ids-Parties,
}

module _ (store : Store) (laws : StoreLaws store) where
  abbrev pub new_request : ℕ → ℕ → Friendship
  new_request me other = record { id = 0; from_user = me; to_user = other; status = pending }

  -- What the handler saw when it let a request through.
  pub record Unrelated (st : store.State) (me other : ℕ) : Type 0 where
    pub apart : me ≢ other
    pub none_sent : store.friends_where (between me other none) st ≡ []
    pub none_received : store.friends_where (between other me none) st ≡ []

  remove_changes-ok :
      (s : GameSession) (email : List ℕ) (st : store.State) (changes : List Change)
      → remove_changes store s email st ≡ ok changes
      → (other : ℕ) × Parties store laws s email st s.player_id other
        × (changes
            ≡ map delete_friendship
                (store.friends_where (between other s.player_id (some accepted)) st)
              ++ map delete_friendship
                  (store.friends_where (between s.player_id other (some accepted)) st))
        × (changes ≢ [])
  unfolding remove_changes
  remove_changes-ok s email st changes e =
      let ((me, other), e₀, e₁) = >>=-ok (both_ids store s email st) _ e in
      let p = both_ids-Parties store laws s email st me other e₀ in
      let seen = rw p.sender at (
        lists (store.friends_where (between other me (some accepted)) st)
          (store.friends_where (between me other (some accepted)) st) e₁) in
      (other, rw p.sender at p, seen.0, seen.1)
    where
      lists :
          (l1 l2 : List Friendship)
          → ◌≡◌ {A = Result (List Change)}
              (if is_empty l1 && is_empty l2
                then fail "Not a friend"
                else ok (map delete_friendship l1 ++ map delete_friendship l2))
              (ok changes)
          → (changes ≡ map delete_friendship l1 ++ map delete_friendship l2) × (changes ≢ [])
      lists [] [] e = cc
      lists [] (f ∷ fs) e = (ground arith, λ h. ground arith)
      lists (f ∷ fs) l2 e = (ground arith, λ h. ground arith)

  -- Ending a friendship is refused with no friendship changed, or deletes the accepted rows that
  -- the handler saw between the sender and the user with the address, in both directions, of which
  -- there was at least one.
  pub handle_remove_friend-cases :
      (others : store.State → store.State) (sid : ℕ) (email : List ℕ) (w : World store.State)
      → let w' = handle_remove_friend store others sid email w in
        let me = (w.sessions sid).player_id in
        Refused store laws s_remove_friend others sid w w'
        ⊎ ((other : ℕ) × (changes : List Change) × Parties store laws
              (w.sessions sid)
              email
              w.db
              me
              other
            × (changes
                ≡ map delete_friendship
                    (store.friends_where (between other me (some accepted)) w.db)
                  ++ map delete_friendship
                      (store.friends_where (between me other (some accepted)) w.db))
            × (changes ≢ [])
            × Applied store laws s_remove_friend others sid changes w w')
  unfolding handle_remove_friend
  handle_remove_friend-cases others sid email w =
      elim (flush_changes-cases store laws s_remove_friend others sid
        (remove_changes store (w.sessions sid) email w.db) w) [
          | inl refusal ↦ inl refusal
          | inr (changes, e, done) ↦
              let (other, p, same, some_row) =
                remove_changes-ok (w.sessions sid) email w.db changes e in
              inr (other, changes, p, same, some_row, done)
        ]
