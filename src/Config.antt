-- ===== src/Config.antt =====
-- src/eventful/config.py: the configuration record, and its construction from a mapping.
pub mod Typed
pub mod Tests
use eventful.Base.{
  Bool, true, false, ℕ, String, Option, none, some, List, [], ◌∷◌, ◌++◌, map, str_eq, if◌then◌else◌,
}
use eventful.Base.Dict
use eventful.Base.Dict.{Dict}
use eventful.Event.{Value, Fields, boolean, nat, text, mapping, field, end, member, or_default}
use eventful.Exceptions.{Exc, Result, ok, err, configuration_error, ◌>>=◌}

-- The configuration, without `extra`: values that are no texts are not converted, so that each field
-- may have any.
pub record Settings : Type 0 where
  pub enable_priorities : Value
  pub propagation_enabled : Value
  pub redis_url : Value
  pub redis_channel : Value
  pub redis_reconnect_backoff : Value
  pub file_path : Value
  pub file_max_size : Value
  pub file_backup_count : Value
  pub postgres_url : Value
  pub postgres_table : Value
  pub logging_enabled : Value
  pub logging_level : Value
  pub max_queue_size : Value

pub record EventfulConfig : Type 0 where
  pub settings : Settings
  pub extra : Dict Value

-- The fields of the dataclass, without `extra`.
pub data Field : Type 0 where
  enable_priorities propagation_enabled redis_url redis_channel redis_reconnect_backoff : Field
  file_path file_max_size file_backup_count postgres_url postgres_table : Field
  logging_enabled logging_level max_queue_size : Field

pub data Target : Type 0 where
  bool_type int_type float_type str_type : Target

abbrev pub name : Field → String
name enable_priorities = "enable_priorities"
name propagation_enabled = "propagation_enabled"
name redis_url = "redis_url"
name redis_channel = "redis_channel"
name redis_reconnect_backoff = "redis_reconnect_backoff"
name file_path = "file_path"
name file_max_size = "file_max_size"
name file_backup_count = "file_backup_count"
name postgres_url = "postgres_url"
name postgres_table = "postgres_table"
name logging_enabled = "logging_enabled"
name logging_level = "logging_level"
name max_queue_size = "max_queue_size"

-- The declared types.
abbrev pub target : Field → Target
target enable_priorities = bool_type
target propagation_enabled = bool_type
target redis_reconnect_backoff = float_type
target file_max_size = int_type
target file_backup_count = int_type
target logging_enabled = bool_type
target max_queue_size = int_type
target f = str_type

abbrev pub all_fields : List Field
all_fields =
    enable_priorities ∷ propagation_enabled ∷ redis_url ∷ redis_channel ∷ redis_reconnect_backoff
    ∷ file_path ∷ file_max_size ∷ file_backup_count ∷ postgres_url ∷ postgres_table
    ∷ logging_enabled ∷ logging_level ∷ max_queue_size ∷ []

unfoldable pub find_field : String → List Field → Option Field
find_field key [] = none
find_field key (f ∷ fs) =
    let rest = find_field key fs in if str_eq (name f) key then some f else rest

-- The field of a key of `known`.
unfoldable pub field_of : String → Option Field
unfolding find_field
field_of key = find_field key all_fields

-- Python's `str.lower`, `int` and `float` of a text, where `none` is a ValueError, and the float 1.0.
pub record Scalars : Type 0 where
  pub lower : String → String
  pub to_int : String → Option Value
  pub to_float : String → Option Value
  pub one : Value

-- `cls(**arguments)`
abbrev pub construct : Scalars → Dict Value → Dict Value → EventfulConfig
construct scalars arguments extras = record {
  settings = record {
    enable_priorities = or_default (boolean true) (Dict.get "enable_priorities" arguments);
    propagation_enabled = or_default (boolean true) (Dict.get "propagation_enabled" arguments);
    redis_url = or_default (text "redis://localhost:6379") (Dict.get "redis_url" arguments);
    redis_channel = or_default (text "eventful") (Dict.get "redis_channel" arguments);
    redis_reconnect_backoff = or_default scalars.one (Dict.get "redis_reconnect_backoff" arguments);
    file_path = or_default (text "events.log") (Dict.get "file_path" arguments);
    file_max_size = or_default (nat 10485760) (Dict.get "file_max_size" arguments);
    file_backup_count = or_default (nat 5) (Dict.get "file_backup_count" arguments);
    postgres_url =
        or_default (text "postgresql://localhost:5432/eventful")
          (Dict.get "postgres_url" arguments);
    postgres_table = or_default (text "events") (Dict.get "postgres_table" arguments);
    logging_enabled = or_default (boolean true) (Dict.get "logging_enabled" arguments);
    logging_level = or_default (text "INFO") (Dict.get "logging_level" arguments);
    max_queue_size = or_default (nat 10000) (Dict.get "max_queue_size" arguments);
  };
  extra = extras;
}

abbrev pub coerce_bool : String → Result Value
coerce_bool normalized =
    if member normalized ("true" ∷ "1" ∷ "yes" ∷ "on" ∷ [])
    then ok (boolean true)
    else if member normalized ("false" ∷ "0" ∷ "no" ∷ "off" ∷ [])
    then ok (boolean false)
    else err configuration_error

-- A ValueError becomes a ConfigurationError.
abbrev pub converted : Option Value → Result Value
converted none = err configuration_error
converted (some v) = ok v

-- `_coerce_value`
unfoldable pub coerce_value : Scalars → Value → Target → Result Value
unfolding member
coerce_value scalars (text t) bool_type = coerce_bool (scalars.lower t)
coerce_value scalars (text t) int_type = converted (scalars.to_int t)
coerce_value scalars (text t) float_type = converted (scalars.to_float t)
coerce_value scalars (text t) str_type = ok (text t)
coerce_value scalars value target = ok value

-- `extras.update(raw_value)`
unfoldable pub update_fields : Dict Value → Fields → Dict Value
update_fields extras end = extras
update_fields extras (field key value fs) = update_fields (Dict.put key value extras) fs

abbrev pub update_extras : Value → Dict Value → Dict Value → Result (Dict Value × Dict Value)
update_extras (mapping fs) arguments extras = ok (arguments, update_fields extras fs)
update_extras raw_value arguments extras = err configuration_error

-- One round of the loop: the arguments and the extras.
abbrev pub visit_item :
    Scalars
    → Bool
    → Option Field
    → String
    → Value
    → Dict Value
    → Dict Value
    → Result (Dict Value × Dict Value)
visit_item scalars allow_extra (some f) key raw_value arguments extras = do
  value ← coerce_value scalars raw_value (target f)
  ok (Dict.put key value arguments, extras)
visit_item scalars allow_extra none key raw_value arguments extras =
    if str_eq key "extra"
    then update_extras raw_value arguments extras
    else if allow_extra
    then ok (arguments, Dict.put key raw_value extras)
    else err configuration_error

unfoldable pub visit_items :
    Scalars → Bool → Dict Value → Dict Value → Dict Value → Result (Dict Value × Dict Value)
unfolding field_of coerce_value update_fields
visit_items scalars allow_extra [] arguments extras = ok (arguments, extras)
visit_items scalars allow_extra ((key, raw_value) ∷ items) arguments extras = do
  both ← visit_item scalars allow_extra (field_of key) key raw_value arguments extras
  visit_items scalars allow_extra items both.0 both.1

-- `from_mapping`
unfoldable pub from_mapping : Scalars → Bool → Dict Value → Result EventfulConfig
unfolding visit_items
from_mapping scalars allow_extra values = do
  both ← visit_items scalars allow_extra values [] []
  ok (construct scalars both.0 both.1)

-- `get_config` and `set_config` on the global instance, where `from_env` is what `from_env` gives
unfoldable pub get_config :
    Result EventfulConfig → Option EventfulConfig → Result EventfulConfig × Option EventfulConfig
get_config from_env (some config) = (ok config, some config)
get_config from_env none = elim from_env [
  | err e ↦ (err e, none)
  | ok config ↦ (ok config, some config)
]

abbrev pub set_config : EventfulConfig → Option EventfulConfig → Option EventfulConfig
set_config config global = some config

-- The variables that are set, by the names of the fields; `variable` is "EVENTFUL_" and the `upper`
-- name.
unfoldable pub environment_values : (String → String) → Dict String → List String → Dict Value
environment_values variable environ [] = []
environment_values variable environ (key ∷ known) =
    let rest = environment_values variable environ known in
    elim (Dict.get (variable key) environ) [ none ↦ rest | some t ↦ (key, text t) ∷ rest ]

-- `from_env`
unfoldable pub from_env : Scalars → (String → String) → Dict String → Result EventfulConfig
unfolding environment_values from_mapping
from_env scalars variable environ =
    from_mapping scalars true
      (environment_values variable environ (map name all_fields ++ "extra" ∷ []))
