-- ===== src/Orm/Property.antt =====
-- Class `Property` of Server/DB/ORM/Property.h: a field of an entity with the value it had when it
-- was read.
pub mod Tracking
use asio_chat_server.Common.{Bool, true, false, if◌then◌else◌, List, [], ◌∷◌}

pub record Property {ℓ} (A : Type ℓ) : Type ℓ where
  pub current_value : A
  pub origin_value : A
  pub dirty : Bool

-- A call of a member function that changes the field.
pub data Access {ℓ} (A : Type ℓ) : Type ℓ where
  inits : A → Access A
  assigns : A → Access A
  changes : (A → A) → Access A
  post_changes : (A → A) → Access A
  clears : Access A

module _ {ℓ} {A : Type ℓ} where
  unfoldable pub init : A → Property A → Property A
  init v p = record { current_value = v; origin_value = v; dirty = false }

  unfoldable pub assign : A → Property A → Property A
  assign v p = record {
    current_value = v;
    origin_value = if p.dirty then p.origin_value else p.current_value;
    dirty = true;
  }

  -- `++`, `--`, `+=`, `-=`, `*=`, `/=` and `%=`: `f` is the operation on the value.
  unfoldable pub change : (A → A) → Property A → Property A
  change f p = record {
    current_value = f p.current_value;
    origin_value = if p.dirty then p.origin_value else p.current_value;
    dirty = true;
  }

  -- The postfix `++` and `--`, with the copy they return.
  unfoldable pub post_change : (A → A) → Property A → Property A × Property A
  unfolding change
  post_change f p = (p, change f p)

  unfoldable pub clear_dirty : Property A → Property A
  clear_dirty p = record p { origin_value = p.current_value; dirty = false }

  abbrev pub access : Access A → Property A → Property A
  access (inits v) p = init v p
  access (assigns v) p = assign v p
  access (changes f) p = change f p
  access (post_changes f) p = (post_change f p).1
  access clears p = clear_dirty p

  abbrev pub accesses : List (Access A) → Property A → Property A
  accesses [] p = p
  accesses (a ∷ calls) p = accesses calls (access a p)
