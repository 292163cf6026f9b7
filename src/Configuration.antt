-- ===== src/Configuration.antt =====
-- src/eventful/configuration/__init__.py: the sources of configuration and their composition.
pub mod Precedence
pub mod Tests
use eventful.Base.{
  Bool, true, false, String, Option, none, some, List, [], ◌∷◌, str_eq, if◌then◌else◌,
}
use eventful.Base.Dict
use eventful.Base.Dict.{Dict}
use eventful.Event.{Value, text}
use eventful.Exceptions.{Result, ok, err, value_error, type_error, ◌>>=◌}

-- `d.update(e)`
unfoldable pub update : Dict Value → Dict Value → Dict Value
update d [] = d
update d ((key, value) ∷ e) = update (Dict.put key value d) e

-- `MappingSource`, which is the snapshot of its values
abbrev pub load_mapping : Dict Value → Result (Dict Value)
load_mapping values = ok values

-- The constructor of `EnvironmentSource`, with its prefix
abbrev pub new_environment_source : String → Result String
new_environment_source prefix = if str_eq prefix "" then err value_error else ok prefix

module _ (starts_with : String → String → Bool) (remove_prefix : String → String → String)
    (lower : String → String) where
  abbrev pub key_of : String → String → String
  key_of prefix key = lower (remove_prefix key prefix)

  -- The comprehension: a later variable of the same normalized name takes the place.
  unfoldable pub collect : String → Dict String → Dict Value → Dict Value
  collect prefix [] found = found
  collect prefix ((key, value) ∷ environ) found =
      collect prefix environ
        (if starts_with key prefix then Dict.put (key_of prefix key) (text value) found else found)

  -- `EnvironmentSource.load`
  unfoldable pub load_environment : String → Dict String → Result (Dict Value)
  unfolding collect
  load_environment prefix environ = ok (collect prefix environ [])

-- A source is what its `load` gives, and `none` for an object without one.
abbrev pub Source : Type 0
Source = Option (Result (Dict Value))

-- The loads of the sources, if each has one.
unfoldable pub all_loads : List Source → Option (List (Result (Dict Value)))
all_loads [] = some []
all_loads (s ∷ sources) = elim s [
  | none ↦ none
  | some load ↦ elim (all_loads sources) [ none ↦ none | some loads ↦ some (load ∷ loads) ]
]

-- The constructor of `CompositeSource`
unfoldable pub new_composite : List Source → Result (List (Result (Dict Value)))
unfolding all_loads
new_composite [] = err value_error
new_composite (s ∷ sources) = elim (all_loads (s ∷ sources)) [
  | none ↦ err type_error
  | some loads ↦ ok loads
]

unfoldable pub merge_from : List (Result (Dict Value)) → Dict Value → Result (Dict Value)
unfolding update
merge_from [] merged = ok merged
merge_from (load ∷ loads) merged = do values ← load; merge_from loads (update merged values)

-- `CompositeSource.load`
unfoldable pub load_composite : List (Result (Dict Value)) → Result (Dict Value)
unfolding merge_from
load_composite loads = merge_from loads []
