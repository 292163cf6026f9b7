-- ===== src/StarletteAdapter.antt =====
-- src/eventful/adapters/starlette.py: the middleware that attaches a bus to requests and closes it at
-- the end of the lifespan. The tasks of an application are not interleaved.
pub mod Lifespan
pub mod Tests
use eventful.Base.{Bool, true, false, ℕ, String, Option, none, some, str_eq, if◌then◌else◌}
use eventful.Exceptions.{Exc, Result, ok, err, value_error, runtime_error, base_exception}
use eventful.Runtime.{Comp, pure, raise, ◌>>=◌, ◌>>◌, attempt}

-- A bus is an object, by its identity.
pub record EventfulMiddleware : Type 0 where
  pub bus : ℕ
  pub close_on_shutdown : Bool
  pub state_key : String

-- The flag `_closed`, and everything else.
pub record State (W : Type 0) : Type 0 where
  pub closed : Bool
  pub world : W

-- `bus` and ownership: the bus that was given, or one that the adapter makes and owns.
abbrev pub choose : (made : ℕ) → Option ℕ → ℕ × Bool
choose made none = (made, true)
choose made (some b) = (b, false)

abbrev pub or_owned : Bool → Option Bool → Bool
or_owned owned none = owned
or_owned owned (some b) = b

-- `__init__`; `factory` is the bus that a given `bus_factory` makes, `fresh` a new `InMemoryBus`.
unfoldable pub new_middleware :
    (bus factory : Option ℕ) (fresh : ℕ) (close_on_shutdown : Option Bool) (state_key : String)
    → Result EventfulMiddleware
new_middleware (some b) (some made) fresh close_on_shutdown state_key = err value_error
new_middleware bus factory fresh close_on_shutdown state_key =
    let made : ℕ = elim factory [ none ↦ fresh | some f ↦ f ] in
    let (chosen, owned) = choose made bus in
    if str_eq state_key ""
    then err value_error
    else ok (record {
      bus = chosen;
      close_on_shutdown = or_owned owned close_on_shutdown;
      state_key = state_key;
    })

-- The messages of the lifespan protocol, by their `type`.
abbrev pub is_terminal : String → Bool
is_terminal type =
    if str_eq type "lifespan.startup.failed"
    then true
    else if str_eq type "lifespan.shutdown.complete"
    then true
    else str_eq type "lifespan.shutdown.failed"

-- The server's `send`, and the `close` of the bus, awaited if it gives an awaitable; `none` is a bus
-- that has none.
module _ {W : Type 0} (m : EventfulMiddleware) (close_bus : Option (Comp W (Unit {0})))
    (send : String → Comp (State W) (Unit {0})) where
  -- A call that leaves the flag alone.
  abbrev pub on_world : Comp W (Unit {0}) → Comp (State W) (Unit {0})
  on_world c s = let (r, w) = c s.world in (r, record s { world = w })

  abbrev pub close_bus_of : Option (Comp W (Unit {0})) → Comp (State W) (Unit {0})
  close_bus_of none = pure tt
  close_bus_of (some c) = on_world c

  abbrev pub close_open : Comp (State W) (Unit {0})
  close_open s =
      let s' = record s { closed = true } in
      (if m.close_on_shutdown then close_bus_of close_bus else pure tt) s'

  -- `close`
  unfoldable pub close : Comp (State W) (Unit {0})
  close s = (if s.closed then pure tt else close_open) s

  -- `lifespan_send`
  unfoldable pub lifespan_send : (type : String) → Comp (State W) (Unit {0})
  unfolding close
  lifespan_send type = (if is_terminal type then close else pure tt) >> send type

  -- After an application that raised: the cleanup, and both errors if that raises too.
  abbrev pub cleaned : Exc → Result (Unit {0}) → Comp (State W) (Unit {0})
  cleaned e (ok _) = raise e
  cleaned e (err cleanup) = raise (base_exception "BaseExceptionGroup")

  abbrev pub after_application : Result (Unit {0}) → Comp (State W) (Unit {0})
  after_application (ok _) = pure tt
  after_application (err e) = do outcome ← attempt close; cleaned e outcome

  -- `__call__` for the scope type `lifespan`; the application is called with `lifespan_send`.
  unfoldable pub lifespan :
      ((String → Comp (State W) (Unit {0})) → Comp (State W) (Unit {0})) → Comp (State W) (Unit {0})
  unfolding lifespan_send
  lifespan app = do outcome ← attempt (app lifespan_send); after_application outcome

-- `request_event_bus`, of what the request's state has under the key
unfoldable pub request_event_bus : (attached default : Option ℕ) → Result ℕ
request_event_bus (some b) default = ok b
request_event_bus none (some b) = ok b
request_event_bus none none = err runtime_error
