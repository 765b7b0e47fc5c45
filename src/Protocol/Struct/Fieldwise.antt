-- ===== src/Protocol/Struct/Fieldwise.antt =====
-- A struct is filled field by field: what a field holds depends on the keys that name it only.
use claude_distant.Common.{
  Bool, List, Option, Sum-cases, [], ap, arith, false, if◌then◌else◌, inl, inr, map, none, refl,
  some, sym, true, ◌↔◌, ◌∙◌, ◌∷◌, ◌≡◌, ◌≢◌, ◌⊎◌,
}
use claude_distant.Protocol.Struct.{
  Shape, Slot, Struct, Syntax, assign, fold_rune, names, put_all, put_field, put_head, put_outcome,
  put_shape, slot_of,
}
use claude_distant.Text.{Text, equal}
use claude_distant.Text.Laws.{equal_iff, equal_refl}

-- A field behind one key of the object: only a key that names it assigns to it.
abbrev pub next_slot : Bool → Slot → Text → Shape → Slot
next_slot true v raw shape = elim (assign v raw shape) [ none ↦ v | some w ↦ w ]
next_slot false v raw shape = v

-- `names` is an equation of texts.
names_iff : (key name : Text) → (names key name ≡ true) ↔ (name ≡ map fold_rune key)
unfolding names
names_iff key name = equal_iff name (map fold_rune key)

Bool-false : (b : Bool) → (b ≡ true → ⊥) → b ≡ false
Bool-false true h = absurd (h refl)
Bool-false false h = refl

names-eq :
    (b c : Bool) (key name n : Text)
    → names key name ≡ b
    → equal name n ≡ c
    → (c ≡ true → names key n ≡ b) × (b ≡ true → c ≡ false → names key n ≡ false)
names-eq b c key name n p q = (
  λ e. ap (names key) (sym ((equal_iff name n).0 (q ∙ e))) ∙ p,
  λ e d.
      Bool-false (names key n)
        (λ m. cc ((names_iff key name).0 (p ∙ e), (names_iff key n).0 m, equal_refl n, q ∙ d)),
)

put_head-slot :
    (b c : Bool) (key raw n name : Text) (shape : Shape) (w v : Slot) (o : Option Slot)
    (fields : Struct) (rest : Option Struct) (st' : Struct)
    → names key name ≡ b
    → equal name n ≡ c
    → assign w raw shape ≡ o
    → put_head b name w o fields rest ≡ some st'
    → (if c then some w else slot_of n fields) ≡ some v
    → ((st : Struct)
        → rest ≡ some st
        → slot_of n fields ≡ some v
        → slot_of n st ≡ some (next_slot (names key n) v raw shape))
    → slot_of n st' ≡ some (next_slot (names key n) v raw shape)
unfolding put_head slot_of
put_head-slot true true key raw n name shape w v none fields rest st' p q a h s ih = cc
put_head-slot true false key raw n name shape w v none fields rest st' p q a h s ih = cc
put_head-slot true true key raw n name shape w v (some w') fields rest st' p q a h s ih =
    rw ((names-eq true true key name n p q).0 refl) (ground (arith, q, a))
put_head-slot true false key raw n name shape w v (some w') fields rest st' p q a h s ih =
    rw ((names-eq true false key name n p q).1 refl refl) (ground (arith, q))
put_head-slot false c key raw n name shape w v o fields none st' p q a h s ih = cc
put_head-slot false true key raw n name shape w v o fields (some st) st' p q a h s ih =
    rw ((names-eq false true key name n p q).0 refl) (ground (arith, q))
put_head-slot false false key raw n name shape w v o fields (some st) st' p q a h s ih =
    ground (arith, q, ih st refl s)

put_field-slot :
    (key raw n : Text) (shape : Shape) (v : Slot) (st st' : Struct)
    → put_field key raw shape st ≡ some st'
    → slot_of n st ≡ some v
    → slot_of n st' ≡ some (next_slot (names key n) v raw shape)
unfolding put_field slot_of
put_field-slot key raw n shape v [] st' h s = cc
put_field-slot key raw n shape v ((name, w) ∷ fields) st' h s =
    put_head-slot (names key name) (equal name n) key raw n name shape w v (assign w raw shape)
      fields (put_field key raw shape fields) st' refl refl refl h s
      (λ st r t. put_field-slot key raw n shape v fields st r t)

module _ (j : Syntax) where
  -- What a field holds behind a value that is there, and behind the keys of an object.
  abbrev pub shaped_slot : Bool → Slot → Text → Text ⊎ Shape → Slot
  shaped_slot b v raw (inl err) = v
  shaped_slot b v raw (inr shape) = next_slot b v raw shape

  unfoldable pub last_slot : Text → Slot → List (Text × Text) → Slot
  last_slot n v [] = v
  last_slot n v ((key, raw) ∷ fields) =
      last_slot n (shaped_slot (names key n) v raw (j.shape_of raw)) fields

  put_outcome-eq :
      (key : Text) (shape : Shape) (o : Option Struct) (st' : Struct)
      → put_outcome j key shape o ≡ inr st'
      → o ≡ some st'
  unfolding put_outcome
  put_outcome-eq key shape none st' h = cc
  put_outcome-eq key shape (some st) st' h = cc

  put_shape-slot :
      (key raw n : Text) (r : Text ⊎ Shape) (v : Slot) (st st' : Struct)
      → put_shape j key raw r st ≡ inr st'
      → slot_of n st ≡ some v
      → slot_of n st' ≡ some (shaped_slot (names key n) v raw r)
  unfolding put_shape
  put_shape-slot key raw n (inl err) v st st' h s = cc
  put_shape-slot key raw n (inr shape) v st st' h s =
      put_field-slot key raw n shape v st st' (put_outcome-eq key shape _ st' h) s

  put_all_error :
      (fields : List (Text × Text)) (err : Text) (st : Struct) → put_all j fields (inl err) ≢ inr st
  unfolding put_all
  put_all_error [] err st h = cc
  put_all_error (f ∷ fields) err st h = cc

  pub put_all-slot :
      (n : Text) (fields : List (Text × Text)) (v : Slot) (st st' : Struct)
      → put_all j fields (inr st) ≡ inr st'
      → slot_of n st ≡ some v
      → slot_of n st' ≡ some (last_slot n v fields)
  unfolding put_all last_slot
  put_all-slot n [] v st st' h s = ground (arith)
  put_all-slot n ((key, raw) ∷ fields) v st st' h s =
      elim (Sum-cases (put_shape j key raw (j.shape_of raw) st)) [
        | inl (err, q) ↦ absurd (put_all_error fields err st' (ap (put_all j fields) (sym q) ∙ h))
        | inr (st'', q) ↦
            put_all-slot n fields _ st'' st' (ap (put_all j fields) (sym q) ∙ h)
              (put_shape-slot key raw n (j.shape_of raw) v st st'' q s)
      ]
