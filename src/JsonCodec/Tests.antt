-- ===== src/JsonCodec/Tests.antt =====
-- Runs of the codec over dumps that keep their values, and its theorems at concrete inputs.
use eventful.Base.{some, [], ◌∷◌, ◌≡◌, refl, sym}
use eventful.Event.{Event, Value, nat, text, mapping, field, end, new_event}
use eventful.Exceptions.{ok, err, codec_error}
use eventful.Json.{Json, IsJson, canonical, lookup, restored}
use eventful.JsonCodec.{document, encode, decode, from_document, build}
use eventful.JsonCodec.RoundTrip.{decode-encode}

-- A dump is its value with sorted keys.
abbrev pub keeping : Json Value
keeping = record { dumps = λ v. ok (canonical v); loads = λ v. ok v }

pub keeping-IsJson : IsJson keeping
keeping-IsJson = record { loads-dumps = λ v b h. sym h }

abbrev signup : Event
signup = new_event "user.created" (nat 7) (field "b" (nat 1) (field "a" (nat 2) end)) ("new" ∷ [])

-- An empty type is refused.
empty_run : decode keeping (some (mapping (field "type" (text "") end))) ≡ err codec_error
unfolding decode from_document build lookup
empty_run = refl

decode-encode_example : decode keeping (some (canonical (document signup))) ≡ ok (restored signup)
unfolding encode new_event
decode-encode_example =
    decode-encode keeping keeping-IsJson signup (canonical (document signup)) refl refl
