-- ===== src/JsonCodec/RoundTrip.antt =====
-- What the codec reads back of what it wrote, and what it raises.
use eventful.Base.{
  false, String, Option, some, List, ◌≡◌, ◌⊎◌, ◌≢◌, inl, inr, refl, sym, ◌∙◌, ap, arith, str_eq,
  Option-cases, Bool-cases,
}
use eventful.Event.{
  Event, Value, Fields, null, text, array, mapping, nil, end, or_default, new_event,
}
use eventful.Exceptions.{
  Exc, Result, ok, err, type_error, value_error, unicode_error, json_decode_error, codec_error,
  ◌>>=◌,
}
use eventful.Json.{
  Json, IsJson, canonical, canonical_fields, insert_field, str_below, sorted, texts, lookup,
  read_texts, restored,
}
use eventful.Json.Canonical.{read_texts-texts, canonical_all-texts}
use eventful.JsonCodec.{document, encoded, loaded, build, from_document, encode, decode}

encoded_ok : {B : Type 0} (r : Result B) (b : B) → encoded r ≡ ok b → r ≡ ok b
encoded_ok (ok c) b h = h
encoded_ok (err type_error) b h = absurd cc
encoded_ok (err value_error) b h = absurd cc
encoded_ok (err unicode_error) b h = absurd cc
encoded_ok (err json_decode_error) b h = absurd cc
encoded_ok (err e) b h = absurd cc

build-texts :
    (t : String) (payload : Value) (metadata : Fields) (ts : List String)
    → str_eq t "" ≡ false
    → build (some (text t)) payload (mapping metadata) (array (texts ts))
      ≡ ok (new_event t payload metadata ts)
unfolding build
build-texts t payload metadata ts filled = rw (build, filled, read_texts-texts ts) refl

from_document-document :
    (e : Event)
    → str_eq e.type "" ≡ false
    → from_document (canonical (document e)) ≡ ok (restored e)
unfolding from_document document lookup canonical insert_field str_below
from_document-document e filled =
    ap
      (λ vs.
        build (some (text e.type)) (canonical e.payload) (mapping (canonical_fields e.metadata))
          (array vs))
      (canonical_all-texts (sorted e.tags))
    ∙ build-texts e.type (canonical e.payload) (canonical_fields e.metadata) (sorted e.tags) filled

same_error : {A : Type 0} {e f : Exc} → ◌≡◌ {A = Result A} (err f) (err e) → e ≡ f
same_error h = cc

build_error :
    (type : Option Value) (payload metadata tags : Value) (e : Exc)
    → build type payload metadata tags ≡ err e
    → e ≡ codec_error
unfolding build
build_error (some (text t)) payload (mapping metadata) (array vs) e h =
    elim (Bool-cases (str_eq t "")) [
      | inl empty ↦ ground (arith, h, empty)
      | inr filled ↦ elim (Option-cases (read_texts vs)) [
        | inl bad ↦ ground (arith, h, filled, bad)
        | inr (ts, good) ↦ absurd (ground (arith, h, filled, good))
      ]
    ]
build_error type payload metadata tags e h = same_error h

module _ {B : Type 0} (json : Json B) (h : IsJson json) where
  -- The bytes that `encode` gives for an event with a type decode to the event, with its tags sorted
  -- and the keys of its contents sorted.
  pub decode-encode :
      (e : Event) (b : B)
      → str_eq e.type "" ≡ false
      → encode json (some e) ≡ ok b
      → decode json (some b) ≡ ok (restored e)
  unfolding encode decode
  decode-encode e b filled written =
      let read = h.loads-dumps (document e) b (encoded_ok (json.dumps (document e)) b written) in
      rw read (from_document-document e filled)

from_document_error : (raw : Value) (e : Exc) → from_document raw ≡ err e → e ≡ codec_error
unfolding from_document
from_document_error (mapping fs) e h =
    build_error (lookup "type" fs) (or_default null (lookup "payload" fs))
      (or_default (mapping end) (lookup "metadata" fs)) (or_default (array nil) (lookup "tags" fs))
      e h
from_document_error raw e h = same_error h

loaded_error :
    {A : Type 0} (r : Result A) (e : Exc)
    → loaded r ≡ err e
    → (e ≡ codec_error) ⊎ ((r ≡ err e) × ((e ≢ unicode_error) × (e ≢ json_decode_error)))
loaded_error (ok a) e h = absurd cc
loaded_error (err unicode_error) e h = inl (same_error h)
loaded_error (err json_decode_error) e h = inl (same_error h)
loaded_error (err f) e h =
    let same : e ≡ f = same_error h in inr (ap err (sym same), (λ bad. absurd cc, λ bad. absurd cc))

module _ {B : Type 0} (json : Json B) where
  -- What `decode` raises for bytes is a CodecError, or an exception of `loads` that is
  -- neither a UnicodeDecodeError nor a JSONDecodeError.
  pub decode_error :
      (b : B) (e : Exc)
      → decode json (some b) ≡ err e
      → (e ≡ codec_error)
        ⊎ ((json.loads b ≡ err e) × ((e ≢ unicode_error) × (e ≢ json_decode_error)))
  unfolding decode
  decode_error b e h = by_loaded (loaded (json.loads b)) refl h
    where
      by_loaded :
          (r : Result Value)
          → loaded (json.loads b) ≡ r
          → (r >>= from_document) ≡ err e
          → (e ≡ codec_error)
            ⊎ ((json.loads b ≡ err e) × ((e ≢ unicode_error) × (e ≢ json_decode_error)))
      by_loaded (ok raw) l h = inl (from_document_error raw e h)
      by_loaded (err f) l h = loaded_error (json.loads b) e (l ∙ ap err (sym (same_error h)))
