-- ===== src/JsonCodec.antt =====
-- src/eventful/codecs/json.py: events as JSON documents.
pub mod RoundTrip
pub mod Tests
use eventful.Base.{Bool, true, false, String, Option, none, some, List, [], str_eq, if◌then◌else◌}
use eventful.Codec.{Codec}
use eventful.Event.{
  Event, Value, Values, Fields, null, text, array, mapping, nil, end, field, or_default, new_event,
}
use eventful.Exceptions.{
  Exc, Result, ok, err, type_error, value_error, unicode_error, json_decode_error, codec_error,
  ◌>>=◌,
}
use eventful.Json.{Json, sorted, texts, lookup, read_texts}

unfoldable pub document : Event → Value
unfolding sorted texts
document e = mapping (
    field "type" (text e.type) (
      field "payload" e.payload
        (field "metadata" (mapping e.metadata) (field "tags" (array (texts (sorted e.tags))) end))))

-- The `except` clause of `encode`, for TypeError and ValueError with its subclasses; another exception
-- passes.
abbrev pub encoded {ℓ} : {A : Type ℓ} → Result A → Result A
encoded (err type_error) = err codec_error
encoded (err value_error) = err codec_error
encoded (err unicode_error) = err codec_error
encoded (err json_decode_error) = err codec_error
encoded r = r

-- The `except` clause of `decode`; another exception passes, also another ValueError.
abbrev pub loaded {ℓ} : {A : Type ℓ} → Result A → Result A
loaded (err unicode_error) = err codec_error
loaded (err json_decode_error) = err codec_error
loaded r = r

-- The tests on the members, and the event.
unfoldable pub build : (type : Option Value) (payload metadata tags : Value) → Result Event
unfolding read_texts
build (some (text t)) payload (mapping metadata) (array vs) =
    if str_eq t "" then err codec_error else elim (read_texts vs) [
      | none ↦ err codec_error
      | some ts ↦ ok (new_event t payload metadata ts)
    ]
build type payload metadata tags = err codec_error

-- Keys of JSON objects are texts.
unfoldable pub from_document : Value → Result Event
unfolding build lookup
from_document (mapping fs) =
    build (lookup "type" fs) (or_default null (lookup "payload" fs))
      (or_default (mapping end) (lookup "metadata" fs)) (or_default (array nil) (lookup "tags" fs))
from_document raw = err codec_error

module _ {B : Type 0} (json : Json B) where
  -- `encode`; an object that is no `Event` is `none`.
  unfoldable pub encode : Option Event → Result B
  unfolding document
  encode none = err type_error
  encode (some e) = encoded (json.dumps (document e))

  -- `decode`; an object that is no `bytes` is `none`.
  unfoldable pub decode : Option B → Result Event
  unfolding from_document
  decode none = err type_error
  decode (some bytes) = do raw ← loaded (json.loads bytes); from_document raw

  -- The codec as the contract has it.
  unfoldable pub json_codec : Codec B
  unfolding encode decode
  json_codec = record {
    media_type = "application/json";
    encode = λ e. encode (some e);
    decode = λ bytes. decode (some bytes);
  }
