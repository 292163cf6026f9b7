-- ===== src/Observability.antt =====
-- src/eventful/observability/__init__.py: the provider that collects observations in memory. Values are
-- not shared, so that a deep copy is the value.
pub mod Tests
use eventful.Base.{String, List, [], ◌∷◌, ◌++◌}
use eventful.Base.Dict.{Dict}
use eventful.Event.{Event, Value}

pub record Observation : Type 0 where
  pub event_type : String
  pub attributes : Dict Value

-- `InMemoryObservabilityProvider`, which is its buffer
abbrev pub Provider : Type 0
Provider = List Observation

abbrev pub new_provider : Provider
new_provider = []

-- `record_event`
unfoldable pub record_event : Event → Dict Value → Provider → Provider
record_event event attributes provider =
    provider ++ record { event_type = event.type; attributes = attributes } ∷ []

-- `records`
abbrev pub records : Provider → List Observation
records provider = provider

-- `clear`
abbrev pub clear : Provider → Provider
clear provider = []
