-- ===== src/Facade.antt =====
-- src/eventful/__init__.py and the decorator of src/eventful/listener.py: the default bus, and the
-- registration of listeners with it.
pub mod Tests
use eventful.Base.{Bool, true, false, ℕ, String, Option, none, some, List, []}
use eventful.Event.{Event, Value}
use eventful.Exceptions.{Exc, Result, ok, err}
use eventful.Listener.{Callable, Priority}
use eventful.Dispatch.{Dispatcher}
use eventful.Bus.Registry.{Bus, new_bus, register}
use eventful.Config.{EventfulConfig, get_config}
use eventful.Debouncer.{truth}

-- The global variables: the default bus and the configuration.
pub record Globals : Type 0 where
  pub default_bus : Option Bus
  pub config : Option EventfulConfig

-- The arguments of the decorator `listener` besides the topic.
pub record Registration : Type 0 where
  pub priority : Priority
  pub tags : List String
  pub filter_fn : Option (Event → Result Bool)
  pub once : Bool

-- `object_truth` is the truth value of the objects of the application, and `from_env` what
-- `EventfulConfig.from_env` gives.
module _ (object_truth : ℕ → Bool) (from_env : Result EventfulConfig) where
  -- `InMemoryBus(config=config)`
  abbrev pub configured_bus : EventfulConfig → Bus
  configured_bus config =
      new_bus
        (record {
          enable_priorities = truth object_truth config.settings.enable_priorities;
          propagation_enabled = truth object_truth config.settings.propagation_enabled;
        })
        [] none []

  abbrev pub made_bus : Result EventfulConfig → Option EventfulConfig → Result Bus × Globals
  made_bus (err e) global = (err e, record { default_bus = none; config = global })
  made_bus (ok config) global =
      let bus = configured_bus config in
      (ok bus, record { default_bus = some bus; config = global })

  abbrev pub present_or_made : Option Bus → Globals → Result Bus × Globals
  present_or_made (some bus) g = (ok bus, g)
  present_or_made none g =
      let (config, global) = get_config from_env g.config in made_bus config global

  -- `get_default_bus`
  unfoldable pub get_default_bus : Globals → Result Bus × Globals
  unfolding get_config truth
  get_default_bus g = present_or_made g.default_bus g

  -- `set_default_bus`
  abbrev pub set_default_bus : Bus → Globals → Globals
  set_default_bus bus g = record g { default_bus = some bus }

  -- `topic = func.__name__`, for a decorator without a topic
  abbrev pub topic_or : Option String → String → String
  topic_or none name = name
  topic_or (some topic) name = topic

  abbrev pub registered_on :
      String → Callable → Registration → Result Bus → Globals → Result Callable × Globals
  registered_on topic func r (err e) g = (err e, g)
  registered_on topic func r (ok bus) g =
      elim (register topic (some func) r.priority r.tags r.filter_fn r.once bus) [
        | err e ↦ (err e, g)
        | ok bus' ↦ (ok func, record g { default_bus = some bus' })
      ]

  -- A call of the function that `listener` returns, with its variable `topic` before and after.
  unfoldable pub decorator :
      Registration
      → Callable
      → (name : String) → Option String
      → Globals
      → Option String × (Result Callable × Globals)
  unfolding get_default_bus register
  decorator r func name topic g =
      let (bus, g') = get_default_bus g in
      (some (topic_or topic name), registered_on (topic_or topic name) func r bus g')
