-- ===== src/Ai/History/Roles.antt =====
-- The messages that `BuildHistory` of Server/AI/AiChatService.cpp makes of the rows.
use asio_chat_server.Common.{
  ◌≡◌, ◌≢◌, ◌↔◌, refl, sym, subst, ◌∙◌, inl, inr, Bool, true, false, ◌||◌, List, [], ◌∷◌, ◌++◌,
  bytes_eq, codes, Bool-cases,
}
use asio_chat_server.Ai.History.{Message, push_row, push_rows, build_history}

abbrev pub Alternates : List Message → Type 0
Alternates [] = Unit
Alternates (m ∷ []) = Unit
Alternates (m ∷ n ∷ ms) = (bytes_eq m.role n.role ≡ false) × Alternates (n ∷ ms)

abbrev pub StartsUser : List Message → Type 0
StartsUser [] = Unit
StartsUser (m ∷ ms) = bytes_eq m.role (codes "user") ≡ true

abbrev pub any_user : List Message → Bool
any_user [] = false
any_user (m ∷ ms) = bytes_eq m.role (codes "user") || any_user ms

abbrev is_nil : List Message → Bool
is_nil [] = true
is_nil (m ∷ ms) = false

-- What the next row does to a history that is not empty: its first role stays.
push_row-cons :
    (m : Message) (ms : List Message) (row : Message)
    → Alternates (m ∷ ms)
    → (n : Message) × (ns : List Message) × (push_row (m ∷ ms) row ≡ n ∷ ns)
      × (n.role ≡ m.role)
      × Alternates (n ∷ ns)
unfolding push_row
push_row-cons m [] row v = elim (Bool-cases (bytes_eq m.role row.role)) [
  | inl e ↦
      (record m { content = m.content ++ (codes "\n\n" ++ row.content) }, [], rw e refl, refl, tt)
  | inr e ↦ (m, row ∷ [], rw e refl, refl, (e, tt))
]
push_row-cons m (n ∷ ms) row (d, v) =
    let (k, ks, made, role, w) = push_row-cons n ms row v in
    (m, k ∷ ks, rw made refl, refl, (rw role d, w))

push_rows-cons :
    (rows : List Message) (m : Message) (ms : List Message)
    → Alternates (m ∷ ms)
    → (n : Message) × (ns : List Message) × (push_rows (m ∷ ms) rows ≡ n ∷ ns)
      × (n.role ≡ m.role)
      × Alternates (n ∷ ns)
push_rows-cons [] m ms v = (m, ms, unfold push_rows in refl, refl, v)
push_rows-cons (row ∷ rows) m ms v =
    let (k, ks, made, role, w) = push_row-cons m ms row v in
    let (n, ns, made', role', w') = push_rows-cons rows k ks w in
    (n, ns, step k ks made ∙ made', role' ∙ role, w')
  where
    step :
        (k : Message) (ks : List Message)
        → push_row (m ∷ ms) row ≡ k ∷ ks
        → push_rows (m ∷ ms) (row ∷ rows) ≡ push_rows (k ∷ ks) rows
    step k ks e = unfolded ∙ (rw e refl)
      where
        unfolded : push_rows (m ∷ ms) (row ∷ rows) ≡ push_rows (push_row (m ∷ ms) row) rows
        unfolded = unfold push_rows in refl

pub record IsHistory (rows out : List Message) : Type 0 where
  pub alternates : Alternates out
  pub starts_user : StartsUser out
  pub sends_iff : (out ≢ []) ↔ (any_user rows ≡ true)

-- The messages that are sent start with the user's, no two neighbours have one role, and there is
-- a message exactly if some row is the user's.
pub build_history-IsHistory : (rows : List Message) → IsHistory rows (build_history rows)
unfolding build_history
build_history-IsHistory [] = record {
  alternates = tt;
  starts_user = tt;
  sends_iff = (λ h. absurd (h refl), λ h. cc);
}
build_history-IsHistory (row ∷ rows) = elim (Bool-cases (bytes_eq row.role (codes "user"))) [
  | inl e ↦
      let (n, ns, made, role, w) = push_rows-cons rows row [] tt in
      let whole : build_history (row ∷ rows) ≡ n ∷ ns = rw (e, push_row) made in
      subst (IsHistory (row ∷ rows)) (sym whole) (record {
        alternates = w;
        starts_user = rw role e;
        sends_iff = (λ h. rw e refl, λ h same. cc);
      })
  | inr e ↦
      let rest = build_history-IsHistory rows in
      let whole : build_history (row ∷ rows) ≡ build_history rows = rw (e, push_row) refl in
      subst (IsHistory (row ∷ rows)) (sym whole) (record {
        alternates = rest.alternates;
        starts_user = rest.starts_user;
        sends_iff = rw e rest.sends_iff;
      })
]
