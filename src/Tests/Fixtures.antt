-- ===== src/Tests/Fixtures.antt =====
-- A database in memory, a hash that is easy to compute, and a server with two players, for the
-- runs of the models.
use asio_chat_server.Common.{
  All, ℕ, ◌+◌, ◌%◌, ◌≡◌, refl, sym, ap, ◌∙◌, subst, inl, inr, Bool, true, false, Option, none, some,
  List, [], ◌∷◌, arith, ◌==◌, ◌&&◌, if◌then◌else◌, bytes_eq, length, Bool-cases, map,
}
use asio_chat_server.Common.Int.{pos}
use asio_chat_server.Network.World.{GameSession, Room, World}
use asio_chat_server.Network.RoomHandlers.{Encoding}
use asio_chat_server.Security.PasswordHasher.{Bcrypt, c_str, is_hash}
use asio_chat_server.Security.PasswordHasher.Compare.{IsBytes}
use asio_chat_server.Security.PasswordHasher.Verify.{BcryptLaws}
use asio_chat_server.Accounts.Store.{
  User, Friendship, FriendStatus, pending, accepted, FriendQuery, Side, from_side, to_side,
  Executed, executed, no_row, Store, apply_changes, eq_status,
}
use asio_chat_server.Accounts.Store.Save.{StoreLaws, Fixes, Meets}

abbrev pub with_id : ℕ → List User → List User
with_id k [] = []
with_id k (u ∷ us) = let rest = with_id k us in if u.id == k then u ∷ rest else rest

abbrev pub with_email : List ℕ → List User → List User
with_email e [] = []
with_email e (u ∷ us) = let rest = with_email e us in if bytes_eq u.email e then u ∷ rest else rest

abbrev pub with_nickname : List ℕ → List User → List User
with_nickname n [] = []
with_nickname n (u ∷ us) =
    let rest = with_nickname n us in if bytes_eq u.nickname n then u ∷ rest else rest

abbrev pub id_fits : Option ℕ → ℕ → Bool
id_fits none k = true
id_fits (some j) k = k == j

abbrev pub status_fits : Option FriendStatus → FriendStatus → Bool
status_fits none s = true
status_fits (some t) s = eq_status s t

abbrev pub fits : FriendQuery → Friendship → Bool
fits q f =
    id_fits q.by_from f.from_user && (id_fits q.by_to f.to_user && status_fits q.by_status f.status)

abbrev pub that_fit : FriendQuery → List Friendship → List Friendship
that_fit q [] = []
that_fit q (f ∷ fs) = let rest = that_fit q fs in if fits q f then f ∷ rest else rest

abbrev pub first_user : List User → Option User
first_user [] = none
first_user (u ∷ us) = some u

abbrev pub side_id : Side → Friendship → ℕ
side_id from_side f = f.from_user
side_id to_side f = f.to_user

-- The two tables; the committed ones and those that the open transaction sees.
abbrev pub Tables : Type 0
Tables = List User × List Friendship

abbrev pub Db : Type 0
Db = Tables × Tables

-- How a statement ends, from the rows behind it.
abbrev seen : Db → Option Tables → Executed × Db
seen st none = (no_row, st)
seen st (some rows') = (executed, (st.0, rows'))

abbrev pub memory : Store
memory = record {
  State = Db;
  users = λ st. st.0.0;
  friendships = λ st. st.0.1;
  users_by_id = λ k st. with_id k st.0.0;
  users_by_email = λ e st. with_email e st.0.0;
  users_by_nickname = λ n st. with_nickname n st.0.0;
  friends_where = λ q st. that_fit q st.0.1;
  friends_include =
      λ side q st. map (λ f. (f, first_user (with_id (side_id side f) st.0.0))) (that_fit q st.0.1);
  view = λ st. st.1;
  begin_work = λ st. (true, (st.0, st.0));
  execute = λ c st. seen st (apply_changes (λ n. length st.1.0 + 1) (c ∷ []) st.1);
  commit = λ st. (true, (st.1, st.1));
  rollback = λ st. (true, (st.0, st.0));
}

id_fits-Fixes : (o : Option ℕ) (k : ℕ) → id_fits o k ≡ true → Fixes o k
id_fits-Fixes none k e = tt
id_fits-Fixes (some j) k e = ground arith

status_fits-Fixes :
    (o : Option FriendStatus) (s : FriendStatus) → status_fits o s ≡ true → Fixes o s
status_fits-Fixes none s e = tt
status_fits-Fixes (some pending) pending e = refl
status_fits-Fixes (some pending) accepted e = cc
status_fits-Fixes (some accepted) accepted e = refl
status_fits-Fixes (some accepted) pending e = cc

fits-Meets : (q : FriendQuery) (f : Friendship) → fits q f ≡ true → Meets q f
fits-Meets q f e = record {
  from_meets = id_fits-Fixes q.by_from f.from_user (ground arith);
  to_meets = id_fits-Fixes q.by_to f.to_user (ground arith);
  status_meets = status_fits-Fixes q.by_status f.status (ground arith);
}

that_fit-Meets : (q : FriendQuery) (fs : List Friendship) → All (Meets q) (that_fit q fs)
that_fit-Meets q [] = tt
that_fit-Meets q (f ∷ fs) = elim (Bool-cases (fits q f)) [
  | inl e ↦ rw e (fits-Meets q f e, that_fit-Meets q fs)
  | inr e ↦ rw e (that_fit-Meets q fs)
]

with_id-All : (k : ℕ) (us : List User) → All (λ u. u.id ≡ k) (with_id k us)
with_id-All k [] = tt
with_id-All k (u ∷ us) = elim (Bool-cases (u.id == k)) [
  | inl e ↦ rw e (ground arith, with_id-All k us)
  | inr e ↦ rw e (with_id-All k us)
]

seen-view :
    (st : Db) (o : Option Tables)
    → (seen st o).0 ≡ executed
    → (rows' : Tables) × (o ≡ some rows') × ((seen st o).1.1 ≡ rows')
seen-view st none e = absurd cc
seen-view st (some rows') e = (rows', refl, refl)

seen-rows : (st : Db) (o : Option Tables) → (seen st o).1.0 ≡ st.0
seen-rows st none = refl
seen-rows st (some rows') = refl

pub memory_laws : StoreLaws memory
memory_laws = record {
  begins = λ st. refl;
  commits = λ st. refl;
  begun = λ st e. (refl, refl);
  changes_view = λ c st e.
      let k = length st.1.0 + 1 in
      let found = seen-view st (apply_changes (λ n. k) (c ∷ []) st.1) e in
      (k, found.1 ∙ ap some (sym found.2));
  keeps_rows = λ c st. seen-rows st (apply_changes (λ n. length st.1.0 + 1) (c ∷ []) st.1);
  committed = λ st e. refl;
  rolls_back = λ st. refl;
  rolled_back = λ st e. refl;
  friends_meet = λ q st. that_fit-Meets q st.0.1;
  rows_by_id = λ k st. with_id-All k st.0.0;
}

-- A hash of eight bytes in which the password counts by its length alone.
abbrev pub toy_hash : List ℕ → List ℕ
toy_hash plain = b'$' ∷ b'2' ∷ b'b' ∷ b'$' ∷ b'1' ∷ b'2' ∷ b'$' ∷ (1 + length plain % 200) ∷ []

abbrev pub toy_bcrypt : Bcrypt
toy_bcrypt = record {
  gensalt = λ cost salt. some salt;
  crypt = λ plain setting. some (toy_hash plain);
}

c_str-toy_hash : (plain : List ℕ) → c_str (toy_hash plain) ≡ toy_hash plain
c_str-toy_hash plain = ground arith

toy_hash-is_hash : (plain : List ℕ) → is_hash (toy_hash plain) ≡ true
unfolding is_hash
toy_hash-is_hash plain = refl

inside :
    (plain out : List ℕ)
    → ◌≡◌ {A = Option (List ℕ)} (some (toy_hash plain)) (some out)
    → toy_hash plain ≡ out
inside plain out e = ground arith

hashed : (plain : List ℕ) → is_hash (c_str (toy_hash plain)) ≡ true
hashed plain = rw (c_str-toy_hash plain) (toy_hash-is_hash plain)

toy_hash-IsBytes : (plain : List ℕ) → IsBytes (c_str (toy_hash plain))
toy_hash-IsBytes plain = subst IsBytes (sym (c_str-toy_hash plain)) (omega arith)

pub toy_laws : BcryptLaws toy_bcrypt
toy_laws = record {
  again = λ plain setting out e. e;
  hashes = λ plain setting out e.
      subst (λ o. is_hash (c_str o) ≡ true) (inside plain out e) (hashed plain);
  bytes = λ plain setting out e.
      subst (λ o. IsBytes (c_str o)) (inside plain out e) (toy_hash-IsBytes plain);
}

abbrev pub plain_text : Encoding
plain_text = record { to_wide = λ t. t; to_utf8 = λ t. t }

abbrev pub ann : User
ann = record {
  id = 1;
  email = (b'a' ∷ b'@' ∷ b'x' ∷ b'.' ∷ b'd' ∷ b'e' ∷ []);
  nickname = (b'a' ∷ b'n' ∷ b'n' ∷ []);
  password = toy_hash (1 ∷ 2 ∷ 3 ∷ 4 ∷ 5 ∷ 6 ∷ 7 ∷ 8 ∷ []);
  balance = pos 100;
}

abbrev pub bob : User
bob = record {
  id = 2;
  email = (b'b' ∷ b'@' ∷ b'x' ∷ b'.' ∷ b'd' ∷ b'e' ∷ []);
  nickname = (b'b' ∷ b'o' ∷ b'b' ∷ []);
  password = (8 ∷ 7 ∷ 6 ∷ 5 ∷ 4 ∷ 3 ∷ 2 ∷ 1 ∷ []);
  balance = pos 20;
}

-- Ann has asked Bob.
abbrev pub asked : Friendship
asked = record { id = 1; from_user = 1; to_user = 2; status = pending }

abbrev pub session_of : ℕ → GameSession
session_of sid =
    let nickname = (if sid == 11 then ann.nickname else if sid == 12 then bob.nickname else []) in
    let player = (if sid == 11 then 1 else if sid == 12 then 2 else 0) in
    record {
      player_id = player;
      nickname = nickname;
      current_room = none;
      ai_busy = false;
      connected = true;
    }

abbrev pub no_room : Room
no_room = record { name = []; members = []; dead = false; jobs = [] }

-- Ann is logged in on session 11, Bob on session 12, and there is no room.
abbrev pub lobby : World Db
lobby = record {
  db = ((ann ∷ bob ∷ [], asked ∷ []), (ann ∷ bob ∷ [], asked ∷ []));
  sessions = session_of;
  online = (1, 11) ∷ (2, 12) ∷ [];
  rooms = λ r. no_room;
  listed = [];
  next_room = 1;
  sent = [];
}
