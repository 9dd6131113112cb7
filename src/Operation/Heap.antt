-- ===== src/Operation/Heap.antt =====
-- The objects that an operation builds from its answer. They are shared between its stack and one
-- another, so they stand in a heap, each at the place at which it was made.
use orientjs.Text.{Text, text_eq}
use orientjs.Prelude.{
  ℕ, zero, suc, Bool, true, false, Option, none, some, List, [], ◌∷◌, ◌++◌, if◌then◌else◌, ◌>>=◌,
  get_elem?, ℤ,
}
use orientjs.Buffer.{Bytes}

-- A value in a field. `content` is what the deserializer gives, `text` the bytes of a string,
-- which toString decodes; `no_class` is the error about a record with no class.
pub data Value (D : Type 0) : Type 0 where
  null : Value D
  number : ℤ → Value D
  boolean : Bool → Value D
  char : ℕ → Value D
  text : Bytes → Value D
  bytes : Bytes → Value D
  content : D → Value D
  ref : ℕ → Value D
  no_class : Value D

-- An object by its fields; an array has items as well, and an error is an errors.Request.
pub record Object (D : Type 0) : Type 0 where
  pub fields : List (Text × Value D)
  pub items : Option (List (Value D))
  pub is_error : Bool

abbrev pub Heap : Type 0 → Type 0
Heap D = List (Object D)

module _ {D : Type 0} where
  abbrev pub plain : Object D
  plain = record { fields = []; items = none; is_error = false }

  abbrev pub empty_array : Object D
  empty_array = record { fields = []; items = some []; is_error = false }

  -- new errors.Request()
  abbrev pub request_error : Object D
  request_error = record { fields = []; items = none; is_error = true }

  unfoldable pub find : Text → List (Text × Value D) → Option (Value D)
  unfolding text_eq
  find k [] = none
  find k ((j, v) ∷ fs) = if text_eq j k then some v else find k fs

  unfoldable pub insert : Text → Value D → List (Text × Value D) → List (Text × Value D)
  unfolding text_eq
  insert k v [] = (k, v) ∷ []
  insert k v ((j, w) ∷ fs) = if text_eq j k then (j, v) ∷ fs else (j, w) ∷ insert k v fs

  -- One object changed; a place that holds none changes nothing.
  unfoldable pub update : ℕ → (Object D → Object D) → Heap D → Heap D
  update i f [] = []
  update zero f (x ∷ h) = f x ∷ h
  update (suc i) f (x ∷ h) = x ∷ update i f h

  -- `object[key] = value`
  unfoldable pub set_field : ℕ → Text → Value D → Heap D → Heap D
  unfolding update insert
  set_field i k v = update i (λ x. record x { fields = insert k v x.fields })

  abbrev with_item : Value D → Option (List (Value D)) → Option (List (Value D))
  with_item v none = none
  with_item v (some vs) = some (vs ++ (v ∷ []))

  -- `array.push(value)`
  unfoldable pub push_item : ℕ → Value D → Heap D → Heap D
  unfolding update
  push_item i v = update i (λ x. record x { items = with_item v x.items })

  -- `object[key]`; `none` is undefined.
  unfoldable pub field_of : ℕ → Text → Heap D → Option (Value D)
  unfolding find
  field_of i k h = get_elem? h i >>= λ x. find k x.fields
