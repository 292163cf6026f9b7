-- ===== src/Json.antt =====
-- The values of JSON documents, as the standard library's `json` writes and reads them: what
-- src/eventful/codecs/json.py and src/eventful/persistence/file_persistence.py share.
pub mod Canonical
use Prim.Native.String.{compare}
use Prim.Native.Nat.{lt, eq, gt}
use eventful.Base.{
  Bool, true, false, String, Option, none, some, List, [], ◌∷◌, ◌≡◌, refl, str_eq, if◌then◌else◌,
}
use eventful.Event.{
  Event, Value, Values, Fields, null, boolean, nat, neg, text, array, mapping, object, nil, cons,
  end, field, new_event,
}
use eventful.Exceptions.{Result, ok, err}

-- `<` on texts, by code points
unfoldable pub str_below : String → String → Bool
str_below a b = elim (compare a b) [ lt ↦ true | eq ↦ false | gt ↦ false ]

unfoldable pub insert_text : String → List String → List String
unfolding str_below
insert_text t [] = t ∷ []
insert_text t (u ∷ us) =
    let rest = insert_text t us in if str_below u t then u ∷ rest else t ∷ u ∷ us

-- `sorted` of texts
unfoldable pub sorted : List String → List String
unfolding insert_text
sorted [] = []
sorted (t ∷ ts) = insert_text t (sorted ts)

unfoldable pub insert_field : String → Value → Fields → Fields
unfolding str_below
insert_field k v end = field k v end
insert_field k v (field j w fs) =
    let rest = insert_field k v fs in
    if str_below j k then field j w rest else field k v (field j w fs)

-- What a document is read back as: the keys of each object are sorted.
unfoldable mutual
  unfolding insert_field

  pub canonical : Value → Value
  canonical null = null
  canonical (boolean b) = boolean b
  canonical (nat n) = nat n
  canonical (neg n) = neg n
  canonical (text t) = text t
  canonical (array vs) = array (canonical_all vs)
  canonical (mapping fs) = mapping (canonical_fields fs)
  canonical (object i) = object i

  pub canonical_all : Values → Values
  canonical_all nil = nil
  canonical_all (cons v vs) = cons (canonical v) (canonical_all vs)

  pub canonical_fields : Fields → Fields
  canonical_fields end = end
  canonical_fields (field k v fs) = insert_field k (canonical v) (canonical_fields fs)

-- `dict.get`
unfoldable pub lookup : String → Fields → Option Value
lookup k end = none
lookup k (field j v fs) = let rest = lookup k fs in if str_eq j k then some v else rest

-- An array of texts.
unfoldable pub texts : List String → Values
texts [] = nil
texts (t ∷ ts) = cons (text t) (texts ts)

-- `isinstance(tag, str)` of each element
unfoldable pub read_texts : Values → Option (List String)
read_texts nil = some []
read_texts (cons (text t) vs) = elim (read_texts vs) [ none ↦ none | some ts ↦ some (t ∷ ts) ]
read_texts (cons v vs) = none

-- The `json` module with sorted keys, over the encoded texts: what `dumps` and `loads` give or raise.
pub record Json (B : Type 0) : Type 0 where
  pub dumps : Value → Result B
  pub loads : B → Result Value

-- What a dump is, `loads` reads back.
pub record IsJson {B : Type 0} (json : Json B) : Type 0 where
  pub loads-dumps : (v : Value) (b : B) → json.dumps v ≡ ok b → json.loads b ≡ ok (canonical v)

-- An event as it is made from its own document: sorted tags, and sorted keys in its contents.
abbrev pub restored : Event → Event
restored e = new_event e.type (canonical e.payload) (canonical_fields e.metadata) (sorted e.tags)
