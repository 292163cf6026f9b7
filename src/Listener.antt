-- ===== src/Listener.antt =====
-- src/eventful/listener.py: a registered callable with its configuration.
use eventful.Base.{Bool, true, false, ℕ, String, Option, none, some, List, [], ◌∷◌, ◌&&◌}
use eventful.Base.{if◌then◌else◌, ◌||◌}
use eventful.Event.{Event, member}
use eventful.Exceptions.{Result, ok}

-- A callable, by its identity. What a call of it does is a parameter of the model.
abbrev pub Callable : Type 0
Callable = ℕ

-- Priorities are Python integers: `high n` is n, `low n` is -(n + 1).
pub data Priority : Type 0 where
  high : ℕ → Priority
  low : ℕ → Priority

-- `filter_fn` is a pure test of an event, which may raise.
pub record ListenerConfig : Type 0 where
  pub priority : Priority
  pub tags : List String
  pub filter_fn : Option (Event → Result Bool)
  pub once : Bool

-- The class defines no `__eq__`, so two listeners are equal when they are one object: `ident`.
pub record Listener : Type 0 where
  pub ident : ℕ
  pub func : Callable
  pub config : ListenerConfig

-- `tags.issubset(event.tags)`
unfoldable pub subset : List String → List String → Bool
unfolding member
subset [] tags = true
subset (t ∷ ts) tags = member t tags && subset ts tags

abbrev pub passes_filter : Option (Event → Result Bool) → Event → Result Bool
passes_filter none e = ok true
passes_filter (some f) e = f e

-- An empty set of required tags is a subset of every set, so the test for it is not needed for the
-- result; it stands here as in the source.
unfoldable pub matches : Listener → Event → Result Bool
unfolding subset
matches l e =
    let no_tags : Bool = elim l.config.tags [ [] ↦ true | _ ∷ _ ↦ false ] in
    if no_tags || subset l.config.tags e.tags then passes_filter l.config.filter_fn e else ok false
