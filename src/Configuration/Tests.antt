-- ===== src/Configuration/Tests.antt =====
-- Sources of configuration at concrete inputs.
use eventful.Base.{none, some, [], ◌∷◌, map, ◌≡◌, refl}
use eventful.Base.Dict
use eventful.Base.Dict.{Dict}
use eventful.Event.{Value, nat, text}
use eventful.Exceptions.{ok, err, type_error, value_error}
use eventful.Configuration.{load_composite, new_composite}
use eventful.Configuration.Precedence.{last_value, Merged, load_composite-Merged}

abbrev defaults : Dict Value
defaults = ("file_path", text "events.log") ∷ ("max_queue_size", nat 10) ∷ []

abbrev overrides : Dict Value
overrides = ("max_queue_size", nat 20) ∷ []

merged_run :
    load_composite (map ok (defaults ∷ overrides ∷ []))
    ≡ ok (("file_path", text "events.log") ∷ ("max_queue_size", nat 20) ∷ [])
unfolding load_composite Dict.put
merged_run = refl

no_source_run : new_composite [] ≡ err value_error
unfolding new_composite
no_source_run = refl

no_load_run : new_composite (some (ok defaults) ∷ none ∷ []) ≡ err type_error
unfolding new_composite
no_load_run = refl

load_composite-Merged_example :
    Merged
      (λ key. last_value key (defaults ∷ overrides ∷ []))
      (load_composite (map ok (defaults ∷ overrides ∷ [])))
unfolding Dict.get
load_composite-Merged_example =
    load_composite-Merged (defaults ∷ overrides ∷ []) ((refl, (refl, tt)), ((refl, tt), tt))
