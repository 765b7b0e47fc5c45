-- ===== src/Protocol/Struct.antt =====
-- How `json.Unmarshal` fills a Go struct, by the tags of its fields: what client/protocol.go uses of
-- encoding/json. The syntax of JSON is a parameter.
pub mod Fieldwise
use claude_distant.Common.{
  Bool, List, Option, [], false, if◌then◌else◌, inl, inr, leb, ltb, map, none, some, true, ℕ, ◌&&◌,
  ◌+◌, ◌==◌, ◌^◌, ◌∷◌, ◌⊎◌,
}
use claude_distant.Common.Int.{negsuc, pos, ℤ}
use claude_distant.Text.{Text, equal}

-- A JSON value, with the texts of the values that an object holds.
pub data Shape : Type 0 where
  null_shape real_shape array_shape : Shape
  bool_shape : Bool → Shape
  integer_shape : ℤ → Shape
  text_shape : Text → Shape
  object_shape : List (Text × Text) → Shape

-- The syntax of JSON: the error of a text that is no JSON, or its value; and the text of the error that
-- a value of the wrong type gives, by the key that it stands under.
pub record Syntax : Type 0 where
  pub shape_of : Text → Text ⊎ Shape
  pub type_error : Text → Shape → Text

-- A field of a struct, with the type that the tag gives it.
pub data Slot : Type 0 where
  text_slot : Text → Slot
  int_slot : ℤ → Slot
  bool_slot : Bool → Slot
  pointer_slot : Option Bool → Slot
  raw_slot : Text → Slot

abbrev pub Struct : Type 0
Struct = List (Text × Slot)

-- The field of that very name.
unfoldable pub slot_of : Text → Struct → Option Slot
slot_of name [] = none
slot_of name ((k, v) ∷ fields) =
    let rest = slot_of name fields in if equal k name then some v else rest

-- Whether an integer fits into `int` and `int64`.
unfoldable pub in_int64 : ℤ → Bool
in_int64 (pos n) = ltb n (2 ^ 63)
in_int64 (negsuc n) = ltb n (2 ^ 63)

-- The assignment of a JSON value to a field; `none` is a type error. A null leaves the field as it is,
-- but a pointer becomes nil, and raw JSON becomes the text "null".
unfoldable pub assign : Slot → Text → Shape → Option Slot
unfolding in_int64
assign (raw_slot t) raw shape = some (raw_slot raw)
assign (pointer_slot b) raw null_shape = some (pointer_slot none)
assign (pointer_slot b) raw (bool_shape c) = some (pointer_slot (some c))
assign (text_slot t) raw null_shape = some (text_slot t)
assign (text_slot t) raw (text_shape u) = some (text_slot u)
assign (int_slot n) raw null_shape = some (int_slot n)
assign (int_slot n) raw (integer_shape m) = if in_int64 m then some (int_slot m) else none
assign (bool_slot b) raw null_shape = some (bool_slot b)
assign (bool_slot b) raw (bool_shape c) = some (bool_slot c)
assign v raw shape = none

-- A rune under simple folding, as far as a comparison with a key of the protocol can tell: U+017F folds
-- to `s` and U+212A to `k`.
unfoldable pub fold_rune : ℕ → ℕ
fold_rune c =
    if leb b'A' c && leb c b'Z'
    then c + 32
    else if c == 0x17f
    then b's'
    else if c == 0x212a
    then b'k'
    else c

-- Whether a key of an object names a field: keys are compared without regard to case.
unfoldable pub names : Text → Text → Bool
unfolding fold_rune
names key name = equal name (map fold_rune key)

-- The first field, by whether the key names it and what the assignment gives, before the rest.
unfoldable pub put_head : Bool → Text → Slot → Option Slot → Struct → Option Struct → Option Struct
put_head true name v none fields rest = none
put_head true name v (some w) fields rest = some ((name, w) ∷ fields)
put_head false name v o fields none = none
put_head false name v o fields (some st) = some ((name, v) ∷ st)

-- The field with a key's name, if there is one, gets the value.
unfoldable pub put_field : Text → Text → Shape → Struct → Option Struct
unfolding names assign put_head
put_field key raw shape [] = some []
put_field key raw shape ((name, v) ∷ fields) =
    put_head (names key name) name v (assign v raw shape) fields (put_field key raw shape fields)

module _ (j : Syntax) where
  unfoldable pub put_outcome : Text → Shape → Option Struct → Text ⊎ Struct
  put_outcome key shape none = inl (j.type_error key shape)
  put_outcome key shape (some st) = inr st

  -- A field of the object, by its value and by what came of the assignment.
  unfoldable pub put_shape : Text → Text → Text ⊎ Shape → Struct → Text ⊎ Struct
  unfolding put_outcome put_field
  put_shape key raw (inl err) st = inl err
  put_shape key raw (inr shape) st = put_outcome key shape (put_field key raw shape st)

  unfoldable pub put_all : List (Text × Text) → Text ⊎ Struct → Text ⊎ Struct
  unfolding put_shape
  put_all [] r = r
  put_all ((key, raw) ∷ fields) (inl err) = inl err
  put_all ((key, raw) ∷ fields) (inr st) = put_all fields (put_shape key raw (j.shape_of raw) st)

  unfoldable pub fill : Text ⊎ Shape → Struct → Text ⊎ Struct
  unfolding put_all
  fill (inl err) st = inl err
  fill (inr null_shape) st = inr st
  fill (inr (object_shape fields)) st = put_all fields (inr st)
  fill (inr shape) st = inl (j.type_error [] shape)

  -- `json.Unmarshal` into a struct with its zero values, but for the error: encoding/json goes on behind
  -- a type error, and returns the first one, so that what it filled in is not used.
  unfoldable pub unmarshal : Struct → Text → Text ⊎ Struct
  unfolding fill
  unmarshal st s = fill (j.shape_of s) st
