-- ===== src/Bus/Registry.antt =====
-- src/eventful/bus.py: the state of an `EventBus`, registration and removal of listeners. The lock
-- makes each of these operations one step.
use eventful.Base.{
  Bool, true, false, ℕ, suc, String, Option, none, some, List, [], ◌∷◌, ◌++◌, ◌==◌, ◌||◌, str_eq,
  if◌then◌else◌, has, remove_first,
}
use eventful.Base.Dict
use eventful.Base.Dict.{Dict}
use eventful.Event.{Event, to_set}
use eventful.Exceptions.{Result, ok, err, value_error, type_error, ◌>>=◌}
use eventful.Listener.{Listener, Callable, Priority}
use eventful.Middleware
use eventful.Router
use eventful.Router.{Router, listed, store, add_listener, remove_listener}
use eventful.Dispatch.{Dispatcher}

-- `next_ident` is the identity of the next `Listener` object. Middleware, observability providers,
-- the error handler and the schema registry are application objects, by their identities.
pub record Bus : Type 0 where
  pub dispatcher : Dispatcher
  pub router : Router
  pub listeners : Dict (List Listener)
  pub error_handler : Option Callable
  pub middleware : List Callable
  pub schema_registry : Option Callable
  pub observability : List Callable
  pub next_ident : ℕ

-- `EventBus.__init__`
abbrev pub new_bus : Dispatcher → List Callable → Option Callable → List Callable → Bus
new_bus dispatcher middleware schema_registry observability = record {
  dispatcher = dispatcher;
  router = Router.empty;
  listeners = [];
  error_handler = none;
  middleware = middleware;
  schema_registry = schema_registry;
  observability = observability;
  next_ident = 0;
}

unfoldable pub set_error_handler : Option Callable → Bus → Bus
set_error_handler handler b = record b { error_handler = handler }

-- `add_middleware`; `none` is an object that is not callable.
unfoldable pub add_middleware : Option Callable → Bus → Result Bus
add_middleware middleware b = do
  chain ← Middleware.add middleware b.middleware
  ok (record b { middleware = chain })

-- `remove_middleware`
unfoldable pub remove_middleware : Callable → Bus → Bool × Bus
remove_middleware middleware b =
    let (found, chain) = Middleware.remove middleware b.middleware in
    (found, record b { middleware = chain })

-- An object that is no `ObservabilityProvider` is `none`.
unfoldable pub add_observability_provider : Option Callable → Bus → Result Bus
unfolding has
add_observability_provider none b = err type_error
add_observability_provider (some p) b =
    ok (if has p b.observability then b else record b { observability = b.observability ++ p ∷ [] })

unfoldable pub remove_observability_provider : Callable → Bus → Bool × Bus
unfolding has remove_first
remove_observability_provider p b =
    if has p b.observability
    then (true, record b { observability = remove_first p b.observability })
    else (false, b)

-- `none` disables validation; an object that is no `SchemaRegistry` is refused.
pub data RegistryArgument : Type 0 where
  disabled : RegistryArgument
  registry : Callable → RegistryArgument
  no_registry : RegistryArgument

unfoldable pub set_schema_registry : RegistryArgument → Bus → Result Bus
set_schema_registry disabled b = ok (record b { schema_registry = none })
set_schema_registry (registry r) b = ok (record b { schema_registry = some r })
set_schema_registry no_registry b = err type_error

-- `self._listeners.get(topic, ())`
abbrev pub at : String → Bus → List Listener
at topic b = listed (Dict.get topic b.listeners)

abbrev pub registered :
    ℕ → Callable → Priority → List String → Option (Event → Result Bool) → Bool → Listener
registered ident func priority tags filter_fn once = record {
  ident = ident;
  func = func;
  config = record { priority = priority; tags = to_set tags; filter_fn = filter_fn; once = once };
}

-- The locked part of `register`.
unfoldable pub insert : String → Listener → Bus → Bus
insert topic l b = record b {
  listeners = Dict.put topic (at topic b ++ l ∷ []) b.listeners;
  router = add_listener topic l b.router;
  next_ident = suc b.next_ident;
}

-- `register`; a listener that is not callable is `none`.
unfoldable pub register :
    String
    → Option Callable
    → Priority
    → List String
    → Option (Event → Result Bool)
    → Bool
    → Bus
    → Result Bus
unfolding insert
register topic none priority tags filter_fn once b =
    if str_eq topic "" then err value_error else err type_error
register topic (some func) priority tags filter_fn once b =
    if str_eq topic ""
    then err value_error
    else ok (insert topic (registered b.next_ident func priority tags filter_fn once) b)

-- `registered in listeners`: listeners are compared as objects.
unfoldable pub holds : ℕ → List Listener → Bool
holds i [] = false
holds i (l ∷ ls) = l.ident == i || holds i ls

-- `listeners.remove(registered)`
unfoldable pub without : ℕ → List Listener → List Listener
without i [] = []
without i (l ∷ ls) = let rest = without i ls in if l.ident == i then ls else l ∷ rest

abbrev pub taken : String → Listener → Bus → Bus
taken topic l b = record b {
  listeners = store topic (without l.ident (at topic b)) b.listeners;
  router = remove_listener topic l b.router;
}

-- `_remove_registration`
unfoldable pub remove_registration : String → Listener → Bus → Bool × Bus
unfolding holds without
remove_registration topic l b =
    if holds l.ident (at topic b) then (true, taken topic l b) else (false, b)

-- The first listener of the callable.
unfoldable pub first_of_func : Callable → List Listener → Option Listener
first_of_func func [] = none
first_of_func func (l ∷ ls) =
    let rest = first_of_func func ls in if l.func == func then some l else rest

-- `unregister`
unfoldable pub unregister : String → Callable → Bus → Bool × Bus
unfolding first_of_func
unregister topic func b = elim (first_of_func func (at topic b)) [
  | none ↦ (false, b)
  | some l ↦ remove_registration topic l b
]

-- `_find_topic_for_listener`
unfoldable pub find_topic : ℕ → Dict (List Listener) → Option String
unfolding holds
find_topic i [] = none
find_topic i ((topic, ls) ∷ d) =
    let rest = find_topic i d in if holds i ls then some topic else rest

-- `_claim_once`
unfoldable pub claim_once : Listener → Bus → Bool × Bus
claim_once l b =
    if l.config.once
    then elim (find_topic l.ident b.listeners) [
      | none ↦ (false, b)
      | some topic ↦ remove_registration topic l b
    ]
    else (true, b)
