-- ===== src/Network/SessionManager.antt =====
-- Server/Network/SessionManager.cpp: the table from player ids to the sessions logged in.
use asio_chat_server.Common.{
  ℕ, Bool, true, false, Option, none, some, List, [], ◌∷◌, Dict, lookup, insert, erase, ◌==◌,
  if◌then◌else◌, bytes_eq, ◌≡◌, arith, lookup-insert, lookup-erase,
}
use asio_chat_server.Network.World.{GameSession}

-- `Register` overwrites what stands under the id.
unfoldable pub register : ℕ → ℕ → Dict ℕ → Dict ℕ
register player sid online = insert player sid online

-- `Unregister` removes the entry only if it is still the expected session.
unfoldable pub unregister : ℕ → ℕ → Dict ℕ → Dict ℕ
unregister player expected online = elim (lookup player online) [
  | none ↦ online
  | some sid ↦ if sid == expected then erase player online else online
]

unfoldable pub is_online : ℕ → Dict ℕ → Bool
is_online player online = elim (lookup player online) [ none ↦ false | some sid ↦ true ]

-- `GetPlayerId`: a scan for the nickname, 0 if there is none. It answers with the id that the
-- session has now, which need not be the key.
unfoldable pub get_player_id : List ℕ → (ℕ → GameSession) → Dict ℕ → ℕ
get_player_id target sessions [] = 0
get_player_id target sessions ((key, sid) ∷ online) =
    if bytes_eq (sessions sid).nickname target
    then (sessions sid).player_id
    else get_player_id target sessions online

unfoldable pub get_session : ℕ → Dict ℕ → Option ℕ
get_session player online = if player == 0 then none else lookup player online

-- Registering makes the new session the player's, and changes no other player's entry.
pub lookup-register :
    (player sid j : ℕ) (online : Dict ℕ)
    → lookup j (register player sid online) ≡ (if player == j then some sid else lookup j online)
unfolding register
lookup-register player sid j online = lookup-insert player j sid online

-- After a second login of a player the disconnection of the first session leaves the new one
-- registered, and the disconnection of the new one removes it; no other entry changes.
pub lookup-unregister :
    (player expected j : ℕ) (online : Dict ℕ)
    → lookup j (unregister player expected online) ≡ (
        if player == j
        then (elim (lookup player online) [
          | none ↦ none
          | some sid ↦ if sid == expected then none else some sid
        ])
        else lookup j online)
unfolding unregister
lookup-unregister player expected j online = ground (arith, lookup-erase player j online)
