-- ===== src/Orm/Property/Tracking.antt =====
-- What a `Property` (Server/DB/ORM/Property.h) remembers of the calls on it.
use asio_chat_server.Common.{
  ◌≡◌, refl, ap, ◌∙◌, Bool, true, false, List, [], ◌∷◌, inl, inr, Bool-cases, if◌then◌else◌,
  if_of_true, if_of_false,
}
use asio_chat_server.Orm.Property.{
  Property, init, assign, change, post_change, clear_dirty, Access, inits, assigns, changes,
  post_changes, clears, access, accesses,
}

-- The field without a flag: the value at the last `init` or `clear_dirty`, the value now, and
-- whether it was written to in between.
pub record Tracked {ℓ} (A : Type ℓ) : Type ℓ where
  pub saved : A
  pub value : A
  pub touched : Bool

module _ {ℓ} {A : Type ℓ} where
  abbrev pub track : Access A → Tracked A → Tracked A
  track (inits v) t = record { saved = v; value = v; touched = false }
  track (assigns v) t = record t { value = v; touched = true }
  track (changes f) t = record t { value = f t.value; touched = true }
  track (post_changes f) t = record t { value = f t.value; touched = true }
  track clears t = record t { saved = t.value; touched = false }

  abbrev pub tracks : List (Access A) → Tracked A → Tracked A
  tracks [] t = t
  tracks (a ∷ calls) t = tracks calls (track a t)

  pub record Follows (p : Property A) (t : Tracked A) : Type ℓ where
    pub same_value : p.current_value ≡ t.value
    pub same_origin : p.origin_value ≡ t.saved
    pub same_dirty : p.dirty ≡ t.touched
    pub clean_value : p.dirty ≡ false → p.current_value ≡ p.origin_value

  -- A write keeps the value of the last `init` or `clear_dirty`, however often the field is written.
  kept_origin :
      (p : Property A) (t : Tracked A)
      → Follows p t
      → (if p.dirty then p.origin_value else p.current_value) ≡ t.saved
  kept_origin p t r = elim (Bool-cases p.dirty) [
    | inl e ↦ if_of_true _ _ e ∙ r.same_origin
    | inr e ↦ if_of_false _ _ e ∙ r.clean_value e ∙ r.same_origin
  ]

  access-Follows :
      (a : Access A) (p : Property A) (t : Tracked A)
      → Follows p t
      → Follows (access a p) (track a t)
  unfolding init assign change post_change clear_dirty
  access-Follows (inits v) p t r = record {
    same_value = refl;
    same_origin = refl;
    same_dirty = refl;
    clean_value = λ _. refl;
  }
  access-Follows (assigns v) p t r = record {
    same_value = refl;
    same_origin = kept_origin p t r;
    same_dirty = refl;
    clean_value = λ e. absurd cc;
  }
  access-Follows (changes f) p t r = record {
    same_value = ap f r.same_value;
    same_origin = kept_origin p t r;
    same_dirty = refl;
    clean_value = λ e. absurd cc;
  }
  access-Follows (post_changes f) p t r = record {
    same_value = ap f r.same_value;
    same_origin = kept_origin p t r;
    same_dirty = refl;
    clean_value = λ e. absurd cc;
  }
  access-Follows clears p t r = record {
    same_value = r.same_value;
    same_origin = r.same_value;
    same_dirty = refl;
    clean_value = λ _. refl;
  }

  steps-Follows :
      (calls : List (Access A)) (p : Property A) (t : Tracked A)
      → Follows p t
      → Follows (accesses calls p) (tracks calls t)
  steps-Follows [] p t r = r
  steps-Follows (a ∷ calls) p t r =
      steps-Follows calls (access a p) (track a t) (access-Follows a p t r)

  -- A `Property` refines the field without a flag: after an `init` and any calls, it shows the
  -- value now, the value at the last `init` or `clear_dirty`, and whether a write came since.
  pub accesses-Follows :
      (v : A) (p : Property A) (calls : List (Access A))
      → Follows
          (accesses calls (init v p))
          (tracks calls (record { saved = v; value = v; touched = false }))
  accesses-Follows v p calls = steps-Follows calls _ _ (record {
    same_value = unfold init in refl;
    same_origin = unfold init in refl;
    same_dirty = unfold init in refl;
    clean_value = λ _. unfold init in refl;
  })
