-- ===== src/StarletteAdapter/Tests.antt =====
-- A lifespan whose application raises, and the theorem at concrete inputs.
use eventful.Base.{true, false, ℕ, ◌+◌, String, some, none, ◌≡◌, refl}
use eventful.Exceptions.{ok, err, exception}
use eventful.Runtime.{Comp, pure, raise}
use eventful.StarletteAdapter.{EventfulMiddleware, State, close, lifespan, new_middleware}

abbrev owner : EventfulMiddleware
owner = record { bus = 0; close_on_shutdown = true; state_key = "eventful_bus" }

-- The world counts how often the bus was closed.
abbrev count_close : Comp ℕ (Unit {0})
count_close n = (ok tt, n + 1)

abbrev quiet : String → Comp (State ℕ) (Unit {0})
quiet type = pure tt

abbrev running : State ℕ
running = record { closed = false; world = 0 }

injected_run :
    new_middleware (some 3) none 4 none "eventful_bus"
    ≡ ok (record { bus = 3; close_on_shutdown = false; state_key = "eventful_bus" })
unfolding new_middleware
injected_run = refl

raising_run :
    lifespan owner (some count_close) quiet (λ send'. raise (exception "RuntimeError")) running
    ≡ (err (exception "RuntimeError"), record { closed = true; world = 1 })
unfolding lifespan close
raising_run = refl

abbrev shut : Comp (State ℕ) (Unit {0})
shut = close owner (some count_close) quiet
