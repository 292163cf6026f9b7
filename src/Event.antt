-- ===== src/Event.antt =====
-- src/eventful/event.py: the event model and the conversion of emitted inputs.
use eventful.Base.{Bool, true, false, ℕ, String, Option, none, some, List, [], ◌∷◌, if◌then◌else◌}
use eventful.Base.{str_eq, ◌||◌}
use eventful.Exceptions.{Result, ok, err, type_error, ◌>>=◌}

-- A Python value, as far as the library looks into it. `object` is any other object, by its
-- identity: instances, callables, coroutines.
mutual
  pub data Value : Type 0 where
    null : Value
    boolean : Bool → Value
    nat : ℕ → Value
    -- `neg n` is the integer -(n + 1)
    neg : ℕ → Value
    text : String → Value
    array : Values → Value
    mapping : Fields → Value
    object : ℕ → Value

  pub data Values : Type 0 where
    nil : Values
    cons : Value → Values → Values

  pub data Fields : Type 0 where
    end : Fields
    field : String → Value → Fields → Fields

pub record Event : Type 0 where
  pub type : String
  pub payload : Value
  pub metadata : Fields
  pub tags : List String
  pub propagation_stopped : Bool

-- `event.stop_propagation()`
unfoldable pub stop_propagation : Event → Event
stop_propagation e = record e { propagation_stopped = true }

-- `x in xs` for texts
unfoldable pub member : String → List String → Bool
member t [] = false
member t (u ∷ us) = str_eq u t || member t us

-- `set(tags)`: each tag once
unfoldable pub to_set : List String → List String
unfolding member
to_set [] = []
to_set (t ∷ ts) = let rest = to_set ts in if member t ts then rest else t ∷ rest

-- The keyword arguments of `Event(**event)`, by the annotations of the dataclass, with the names
-- that are no parameter of its constructor.
pub record Keywords : Type 0 where
  pub type : Option String
  pub payload : Option Value
  pub metadata : Option Fields
  pub tags : Option (List String)
  pub others : List String

-- An object with a `type` attribute and perhaps the other three.
pub record Attributes : Type 0 where
  pub type : String
  pub payload : Option Value
  pub metadata : Option Fields
  pub tags : Option (List String)

-- An `Event` object, by its identity: listeners share and change it.
abbrev pub Ref : Type 0
Ref = ℕ

pub data EventInput : Type 0 where
  event : Ref → EventInput
  keywords : Keywords → EventInput
  attributes : Attributes → EventInput
  other : (class_name : String) (value : Value) → EventInput

abbrev pub or_default {ℓ} : {A : Type ℓ} → A → Option A → A
or_default d none = d
or_default d (some a) = a

-- `Event(type, payload, metadata, tags)`, with `__post_init__`
unfoldable pub new_event : String → Value → Fields → List String → Event
unfolding to_set
new_event t payload metadata tags = record {
  type = t;
  payload = payload;
  metadata = metadata;
  tags = to_set tags;
  propagation_stopped = false;
}

from_keywords : Keywords → Result Event
unfolding new_event
from_keywords k = elim k.others [
  | _ ∷ _ ↦ err type_error
  | [] ↦ elim k.type [
    | none ↦ err type_error
    | some t ↦
        ok (
          new_event t (or_default null k.payload) (or_default end k.metadata)
            (or_default [] k.tags))
  ]
]

-- What `ensure_event` returns: the object that it was given, or a new one.
pub data Ensured : Type 0 where
  given : Ref → Ensured
  created : Event → Ensured

unfoldable pub ensure_event : EventInput → Result Ensured
unfolding from_keywords
ensure_event (event r) = ok (given r)
ensure_event (keywords k) = do e ← from_keywords k; ok (created e)
ensure_event (attributes a) = ok (
    created (
      new_event a.type (or_default null a.payload) (or_default end a.metadata)
        (or_default [] a.tags)))
ensure_event (other class_name value) = ok (created (new_event class_name value end []))
