-- ===== src/Config/Tests.antt =====
-- Configurations from concrete mappings.
use eventful.Base.{true, false, none, some, [], ◌∷◌, ◌≡◌, refl, str_eq, if◌then◌else◌}
use eventful.Base.Dict
use eventful.Base.Dict.{Dict}
use eventful.Event.{Value, nat, text, boolean}
use eventful.Exceptions.{ok, err, configuration_error}
use eventful.Config.{
  EventfulConfig, Scalars, construct, from_mapping, target, max_queue_size, coerce_value,
}
use eventful.Config.Typed.{from_mapping-FieldIs}

-- Texts without capitals, of which "7" is the one number.
abbrev plain : Scalars
plain = record {
  lower = λ t. t;
  to_int = λ t. if str_eq t "7" then some (nat 7) else none;
  to_float = λ t. none;
  one = nat 1;
}

abbrev sample : Dict Value
sample = ("max_queue_size", text "7") ∷ ("color", nat 3) ∷ ("logging_enabled", text "off") ∷ []

abbrev pub sample_config : EventfulConfig
sample_config =
    construct plain (("max_queue_size", nat 7) ∷ ("logging_enabled", boolean false) ∷ [])
      (("color", nat 3) ∷ [])

unknown_run : from_mapping plain false sample ≡ err configuration_error
unfolding from_mapping Dict.put
unknown_run = refl

from_mapping-FieldIs_example : coerce_value plain (text "7") (target max_queue_size) ≡ ok (nat 7)
unfolding from_mapping Dict.put Dict.get
from_mapping-FieldIs_example =
    from_mapping-FieldIs plain true sample sample_config (refl, (refl, (refl, tt))) refl
      max_queue_size
