-- ===== src/Accounts/Profile/Laws.antt =====
-- When `Handle_C_AI_CHAT` of Server/Network/ClientPacketHandler.cpp starts the reply of the model.
use asio_chat_server.Common.{
  ℕ, ◌+◌, ◌≤◌, ◌≡◌, ◌≢◌, refl, Bool, true, String, ◌⊎◌, false, List, arith, ◌==◌, length, inl, inr,
}
use asio_chat_server.Network.World.{GameSession, World}
use asio_chat_server.Accounts.Prelude.{ok, fail, Result-cases}
use asio_chat_server.Accounts.Profile.{ai_chat_input, handle_ai_chat, ai_chat_done}

-- A session that may ask the model, and a message that may be asked.
pub record MayAsk (enabled : Bool) (s : GameSession) (message : List ℕ) : Type 0 where
  pub logged_in : s.player_id ≢ 0
  pub some_text : 1 ≤ length message
  pub bounded : length message ≤ 2000
  pub served : enabled ≡ true
  pub idle : s.ai_busy ≡ false

ai_chat_input-cases :
    (enabled : Bool) (s : GameSession) (message : List ℕ)
    → ai_chat_input enabled s message ≡ ok tt
    → MayAsk enabled s message
unfolding ai_chat_input
ai_chat_input-cases enabled s message e = record {
  logged_in = ground arith;
  some_text = ground arith;
  bounded = ground arith;
  served = ground arith;
  idle = ground arith;
}

ai_chat_input-ok :
    (enabled : Bool) (s : GameSession) (message : List ℕ)
    → MayAsk enabled s message
    → ai_chat_input enabled s message ≡ ok tt
unfolding ai_chat_input
ai_chat_input-ok enabled s message m =
    ground (arith, m.logged_in, m.some_text, m.bounded, m.served, m.idle)

-- A request starts a reply of the model exactly if the player is logged in, the message has 1 to
-- 2000 bytes, the service is enabled and no reply is in progress. If it starts one, the session is
-- marked busy until the reply has ended and nothing is sent; if it starts none, the session stays as
-- it was and gets one packet.
pub handle_ai_chat-cases :
    {D : Type 0} (enabled : Bool) (sid : ℕ) (message : List ℕ) (w : World D)
    → ((MayAsk enabled (w.sessions sid) message)
        × ((handle_ai_chat enabled sid message w).0 ≡ true)
        × (((handle_ai_chat enabled sid message w).1.sessions sid).ai_busy ≡ true)
        × ((handle_ai_chat enabled sid message w).1.sent ≡ w.sent)
        × ((thrown : Bool)
            → ((ai_chat_done thrown sid (handle_ai_chat enabled sid message w).1).sessions
                sid).ai_busy
              ≡ false))
      ⊎ (((MayAsk enabled (w.sessions sid) message) → ⊥)
          × ((handle_ai_chat enabled sid message w).0 ≡ false)
          × ((handle_ai_chat enabled sid message w).1.sessions sid ≡ w.sessions sid)
          × (length (handle_ai_chat enabled sid message w).1.sent ≡ length w.sent + 1))
unfolding handle_ai_chat ai_chat_done
handle_ai_chat-cases {D} enabled sid message w =
    elim (Result-cases (ai_chat_input enabled (w.sessions sid) message)) [
      | inl (msg, e) ↦ inr (
        λ m. refuse (ai_chat_input-ok enabled (w.sessions sid) message m) e,
        rw (e, handle_ai_chat) refl,
        rw (e, handle_ai_chat) refl,
        rw (e, handle_ai_chat) (omega arith),
      )
      | inr (u, e) ↦ inl (
        ai_chat_input-cases enabled (w.sessions sid) message e,
        rw (e, handle_ai_chat) refl,
        rw (e, handle_ai_chat, self sid) refl,
        rw (e, handle_ai_chat) refl,
        λ thrown. freed thrown (handle_ai_chat enabled sid message w).1,
      )
    ]
  where
    self : (k : ℕ) → (k == k) ≡ true
    self k = ground arith

    freed :
        (thrown : Bool) (v : World D) → ((ai_chat_done thrown sid v).sessions sid).ai_busy ≡ false
    freed thrown v = unfold ai_chat_done in rw (self sid) refl

    refuse :
        {msg : String}
        → ai_chat_input enabled (w.sessions sid) message ≡ ok tt
        → ai_chat_input enabled (w.sessions sid) message ≡ fail msg
        → ⊥
    refuse a b = cc
