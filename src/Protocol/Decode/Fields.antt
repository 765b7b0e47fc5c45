-- ===== src/Protocol/Decode/Fields.antt =====
-- What the decoded messages of client/protocol.go hold.
use claude_distant.Common.{
  Bool, List, Option, [], ap, false, inl, inr, none, refl, some, sym, true, ◌∙◌, ◌∷◌, ◌≡◌, ◌⊎◌,
}
use claude_distant.Protocol.{CommandMessage, WriteFileParams}
use claude_distant.Protocol.Decode.{
  bool_of, command_from, command_struct, decode_command, decode_write_file, pointer_of, raw_of,
  text_of, with_right, write_file_params_from, write_file_struct,
}
use claude_distant.Protocol.Struct.{
  Shape, Struct, Syntax, array_shape, assign, bool_shape, bool_slot, fill, integer_shape, names,
  null_shape, object_shape, pointer_slot, put_all, raw_slot, real_shape, slot_of, text_shape,
  text_slot, unmarshal,
}
use claude_distant.Protocol.Struct.Fieldwise.{last_slot, put_all-slot, shaped_slot}
use claude_distant.Text.{Text, codes, equal}

-- What a value makes of a text and of a Boolean, with nulls passed over; of raw JSON; and of a pointer to a
-- Boolean, which a null empties.
abbrev pub text_behind : Bool → Text → Text ⊎ Shape → Text
text_behind true t (inr (text_shape u)) = u
text_behind b t r = t

abbrev pub bool_behind : Bool → Bool → Text ⊎ Shape → Bool
bool_behind true t (inr (bool_shape b)) = b
bool_behind b t r = t

abbrev pub raw_behind : Bool → Text → Text → Text ⊎ Shape → Text
raw_behind true t raw (inr shape) = raw
raw_behind b t raw r = t

abbrev pub pointer_behind : Bool → Option Bool → Text ⊎ Shape → Option Bool
pointer_behind true o (inr (bool_shape b)) = some b
pointer_behind true o (inr null_shape) = none
pointer_behind b o r = o

with_right-eq :
    {A : Type 0} (f : Struct → A) (r : Text ⊎ Struct) (a : A)
    → with_right f r ≡ inr a
    → (st : Struct) × (r ≡ inr st) × (f st ≡ a)
with_right-eq f (inl err) a h = cc
with_right-eq f (inr st) a h = (st, refl, cc)

module _ (j : Syntax) where
  -- The value of the last field of an object that a key names.
  unfoldable pub last_text : Text → Text → List (Text × Text) → Text
  last_text n t [] = t
  last_text n t ((key, raw) ∷ fields) =
      last_text n (text_behind (names key n) t (j.shape_of raw)) fields

  unfoldable pub last_bool : Text → Bool → List (Text × Text) → Bool
  last_bool n t [] = t
  last_bool n t ((key, raw) ∷ fields) =
      last_bool n (bool_behind (names key n) t (j.shape_of raw)) fields

  unfoldable pub last_raw : Text → Text → List (Text × Text) → Text
  last_raw n t [] = t
  last_raw n t ((key, raw) ∷ fields) =
      last_raw n (raw_behind (names key n) t raw (j.shape_of raw)) fields

  unfoldable pub last_pointer : Text → Option Bool → List (Text × Text) → Option Bool
  last_pointer n o [] = o
  last_pointer n o ((key, raw) ∷ fields) =
      last_pointer n (pointer_behind (names key n) o (j.shape_of raw)) fields

  text_step :
      (b : Bool) (t raw : Text) (r : Text ⊎ Shape)
      → shaped_slot j b (text_slot t) raw r ≡ text_slot (text_behind b t r)
  unfolding assign
  text_step true t raw (inl err) = refl
  text_step true t raw (inr null_shape) = refl
  text_step true t raw (inr real_shape) = refl
  text_step true t raw (inr array_shape) = refl
  text_step true t raw (inr (bool_shape b)) = refl
  text_step true t raw (inr (integer_shape n)) = refl
  text_step true t raw (inr (text_shape u)) = refl
  text_step true t raw (inr (object_shape fields)) = refl
  text_step false t raw (inl err) = refl
  text_step false t raw (inr shape) = refl

  bool_step :
      (b t : Bool) (raw : Text) (r : Text ⊎ Shape)
      → shaped_slot j b (bool_slot t) raw r ≡ bool_slot (bool_behind b t r)
  unfolding assign
  bool_step true t raw (inl err) = refl
  bool_step true t raw (inr null_shape) = refl
  bool_step true t raw (inr real_shape) = refl
  bool_step true t raw (inr array_shape) = refl
  bool_step true t raw (inr (bool_shape b)) = refl
  bool_step true t raw (inr (integer_shape n)) = refl
  bool_step true t raw (inr (text_shape u)) = refl
  bool_step true t raw (inr (object_shape fields)) = refl
  bool_step false t raw (inl err) = refl
  bool_step false t raw (inr shape) = refl

  raw_step :
      (b : Bool) (t raw : Text) (r : Text ⊎ Shape)
      → shaped_slot j b (raw_slot t) raw r ≡ raw_slot (raw_behind b t raw r)
  unfolding assign
  raw_step true t raw (inl err) = refl
  raw_step true t raw (inr shape) = refl
  raw_step false t raw (inl err) = refl
  raw_step false t raw (inr shape) = refl

  pointer_step :
      (b : Bool) (o : Option Bool) (raw : Text) (r : Text ⊎ Shape)
      → shaped_slot j b (pointer_slot o) raw r ≡ pointer_slot (pointer_behind b o r)
  unfolding assign
  pointer_step true o raw (inl err) = refl
  pointer_step true o raw (inr null_shape) = refl
  pointer_step true o raw (inr real_shape) = refl
  pointer_step true o raw (inr array_shape) = refl
  pointer_step true o raw (inr (bool_shape b)) = refl
  pointer_step true o raw (inr (integer_shape n)) = refl
  pointer_step true o raw (inr (text_shape u)) = refl
  pointer_step true o raw (inr (object_shape fields)) = refl
  pointer_step false o raw (inl err) = refl
  pointer_step false o raw (inr shape) = refl

  last_slot-text :
      (n t : Text) (fields : List (Text × Text))
      → last_slot j n (text_slot t) fields ≡ text_slot (last_text n t fields)
  unfolding last_slot last_text
  last_slot-text n t [] = refl
  last_slot-text n t ((key, raw) ∷ fields) =
      ap (λ v. last_slot j n v fields) (text_step (names key n) t raw (j.shape_of raw))
      ∙ last_slot-text n (text_behind (names key n) t (j.shape_of raw)) fields

  last_slot-bool :
      (n : Text) (t : Bool) (fields : List (Text × Text))
      → last_slot j n (bool_slot t) fields ≡ bool_slot (last_bool n t fields)
  unfolding last_slot last_bool
  last_slot-bool n t [] = refl
  last_slot-bool n t ((key, raw) ∷ fields) =
      ap (λ v. last_slot j n v fields) (bool_step (names key n) t raw (j.shape_of raw))
      ∙ last_slot-bool n (bool_behind (names key n) t (j.shape_of raw)) fields

  last_slot-raw :
      (n t : Text) (fields : List (Text × Text))
      → last_slot j n (raw_slot t) fields ≡ raw_slot (last_raw n t fields)
  unfolding last_slot last_raw
  last_slot-raw n t [] = refl
  last_slot-raw n t ((key, raw) ∷ fields) =
      ap (λ v. last_slot j n v fields) (raw_step (names key n) t raw (j.shape_of raw))
      ∙ last_slot-raw n (raw_behind (names key n) t raw (j.shape_of raw)) fields

  last_slot-pointer :
      (n : Text) (o : Option Bool) (fields : List (Text × Text))
      → last_slot j n (pointer_slot o) fields ≡ pointer_slot (last_pointer n o fields)
  unfolding last_slot last_pointer
  last_slot-pointer n o [] = refl
  last_slot-pointer n o ((key, raw) ∷ fields) =
      ap (λ v. last_slot j n v fields) (pointer_step (names key n) o raw (j.shape_of raw))
      ∙ last_slot-pointer n (pointer_behind (names key n) o (j.shape_of raw)) fields

  text_field_of :
      (n t : Text) (fields : List (Text × Text)) (st st' : Struct)
      → put_all j fields (inr st) ≡ inr st'
      → slot_of n st ≡ some (text_slot t)
      → text_of (slot_of n st') ≡ last_text n t fields
  unfolding text_of
  text_field_of n t fields st st' h s =
      ap text_of (put_all-slot j n fields _ st st' h s)
      ∙ ap (λ v. text_of (some v)) (last_slot-text n t fields)

  bool_field_of :
      (n : Text) (t : Bool) (fields : List (Text × Text)) (st st' : Struct)
      → put_all j fields (inr st) ≡ inr st'
      → slot_of n st ≡ some (bool_slot t)
      → bool_of (slot_of n st') ≡ last_bool n t fields
  unfolding bool_of
  bool_field_of n t fields st st' h s =
      ap bool_of (put_all-slot j n fields _ st st' h s)
      ∙ ap (λ v. bool_of (some v)) (last_slot-bool n t fields)

  raw_field_of :
      (n t : Text) (fields : List (Text × Text)) (st st' : Struct)
      → put_all j fields (inr st) ≡ inr st'
      → slot_of n st ≡ some (raw_slot t)
      → raw_of (slot_of n st') ≡ last_raw n t fields
  unfolding raw_of
  raw_field_of n t fields st st' h s =
      ap raw_of (put_all-slot j n fields _ st st' h s)
      ∙ ap (λ v. raw_of (some v)) (last_slot-raw n t fields)

  pointer_field_of :
      (n : Text) (o : Option Bool) (fields : List (Text × Text)) (st st' : Struct)
      → put_all j fields (inr st) ≡ inr st'
      → slot_of n st ≡ some (pointer_slot o)
      → pointer_of (slot_of n st') ≡ last_pointer n o fields
  unfolding pointer_of
  pointer_field_of n o fields st st' h s =
      ap pointer_of (put_all-slot j n fields _ st st' h s)
      ∙ ap (λ v. pointer_of (some v)) (last_slot-pointer n o fields)

  unmarshal-object :
      (st : Struct) (s : Text) (fields : List (Text × Text)) (st' : Struct)
      → j.shape_of s ≡ inr (object_shape fields)
      → unmarshal j st s ≡ inr st'
      → put_all j fields (inr st) ≡ inr st'
  unfolding unmarshal fill
  unmarshal-object st s fields st' e h = sym (ap (λ r. fill j r st) e) ∙ h

  -- The harness's orders are read by their keys: if an object decodes as a command, then its id and its
  -- tool are the last texts that stand under keys of those names, in any case, and its params are the
  -- raw text of the last value under that key, each wherever it stands and whatever other keys do. What
  -- is missing is empty.
  pub decode_command_fieldwise :
      (s : Text) (fields : List (Text × Text)) (cmd : CommandMessage)
      → j.shape_of s ≡ inr (object_shape fields)
      → decode_command j s ≡ inr cmd
      → (cmd.request_id ≡ last_text (codes "request_id") [] fields)
        × (cmd.tool ≡ last_text (codes "tool") [] fields)
        × (cmd.params ≡ last_raw (codes "params") [] fields)
  unfolding decode_command command_from slot_of equal
  decode_command_fieldwise s fields cmd e h =
      let (st, q, same) = with_right-eq command_from (unmarshal j command_struct s) cmd h in
      let filled = unmarshal-object command_struct s fields st e q in
      (
        ap (λ (c : CommandMessage). c.request_id) (sym same)
            ∙ text_field_of (codes "request_id") [] fields command_struct st filled refl,
        ap (λ (c : CommandMessage). c.tool) (sym same)
            ∙ text_field_of (codes "tool") [] fields command_struct st filled refl,
        ap (λ (c : CommandMessage). c.params) (sym same)
            ∙ raw_field_of (codes "params") [] fields command_struct st filled refl,
      )

  -- An absent `overwrite` stays apart from a false one: if an object decodes as the params of a write,
  -- then the path, the payload and the mode are the last texts under their keys, `create_dirs` is the last
  -- Boolean under its key and false without one, and `overwrite` is the Boolean that stands last under
  -- its key, or nothing where a null does or where there is no such key.
  pub decode_write_file_fieldwise :
      (s : Text) (fields : List (Text × Text)) (p : WriteFileParams)
      → j.shape_of s ≡ inr (object_shape fields)
      → decode_write_file j s ≡ inr p
      → (p.path ≡ last_text (codes "path") [] fields)
        × (p.content_base64 ≡ last_text (codes "content_base64") [] fields)
        × (p.mode ≡ last_text (codes "mode") [] fields)
        × (p.create_dirs ≡ last_bool (codes "create_dirs") false fields)
        × (p.overwrite ≡ last_pointer (codes "overwrite") none fields)
  unfolding decode_write_file write_file_params_from slot_of equal
  decode_write_file_fieldwise s fields p e h =
      let (st, q, same) =
        with_right-eq write_file_params_from (unmarshal j write_file_struct s) p h in
      let filled = unmarshal-object write_file_struct s fields st e q in
      (
        ap (λ (c : WriteFileParams). c.path) (sym same)
            ∙ text_field_of (codes "path") [] fields write_file_struct st filled refl,
        ap (λ (c : WriteFileParams). c.content_base64) (sym same)
            ∙ text_field_of (codes "content_base64") [] fields write_file_struct st filled refl,
        ap (λ (c : WriteFileParams). c.mode) (sym same)
            ∙ text_field_of (codes "mode") [] fields write_file_struct st filled refl,
        ap (λ (c : WriteFileParams). c.create_dirs) (sym same)
            ∙ bool_field_of (codes "create_dirs") false fields write_file_struct st filled refl,
        ap (λ (c : WriteFileParams). c.overwrite) (sym same)
            ∙ pointer_field_of (codes "overwrite") none fields write_file_struct st filled refl,
      )
