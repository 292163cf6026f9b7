-- ===== src/FilePersistence/Record.antt =====
-- src/eventful/persistence/file_persistence.py: the JSON document of an event, and its validation.
use eventful.Base.{
  Bool, true, false, String, Option, none, some, List, [], ◌∷◌, ◌≡◌, refl, ◌∙◌, ap, if◌then◌else◌,
}
use eventful.Event.{Event, Value, Fields, text, array, mapping, end, field, member, new_event}
use eventful.Json.{
  canonical, canonical_fields, sorted, texts, read_texts, lookup, restored, insert_field, str_below,
}
use eventful.Json.Canonical.{read_texts-texts, canonical_all-texts}

-- The document of an event, with sorted keys.
unfoldable pub document : Event → Value
unfolding sorted texts
document e = mapping (
    field "metadata" (mapping e.metadata) (
      field "payload" e.payload
        (field "tags" (array (texts (sorted e.tags))) (field "type" (text e.type) end))))

unfoldable pub all_in : List String → Fields → Bool
all_in names end = true
all_in names (field j v fs) = let rest = all_in names fs in if member j names then rest else false

abbrev pub event_fields : List String
event_fields = "metadata" ∷ "payload" ∷ "tags" ∷ "type" ∷ "timestamp" ∷ []

-- The validated fields: all four, with a text, an object and an array of texts.
unfoldable pub build : (type payload metadata tags : Option Value) → Option Event
unfolding read_texts
build (some (text t)) (some payload) (some (mapping metadata)) (some (array vs)) =
    elim (read_texts vs) [ none ↦ none | some ts ↦ some (new_event t payload metadata ts) ]
build type payload metadata tags = none

-- The record that a line holds, `none` when it is malformed: the keys are those of an event, and
-- perhaps `timestamp`.
unfoldable pub decode : Option Value → Option Event
unfolding build lookup all_in
decode (some (mapping fs)) =
    if all_in event_fields fs
    then build (lookup "type" fs) (lookup "payload" fs) (lookup "metadata" fs) (lookup "tags" fs)
    else none
decode content = none

build-texts :
    (t : String) (payload : Value) (metadata : Fields) (ts : List String)
    → build (some (text t)) (some payload) (some (mapping metadata)) (some (array (texts ts)))
      ≡ some (new_event t payload metadata ts)
unfolding build
build-texts t payload metadata ts = rw (build, read_texts-texts ts) refl

-- What `loads` reads from the line of an event is valid, and gives the event back.
pub decode-document : (e : Event) → decode (some (canonical (document e))) ≡ some (restored e)
unfolding decode document lookup all_in member canonical insert_field str_below
decode-document e =
    ap
      (λ vs.
        build (some (text e.type)) (some (canonical e.payload))
          (some (mapping (canonical_fields e.metadata))) (some (array vs)))
      (canonical_all-texts (sorted e.tags))
    ∙ build-texts e.type (canonical e.payload) (canonical_fields e.metadata) (sorted e.tags)
