-- ===== src/StarletteAdapter/Lifespan.antt =====
-- When the adapter of src/eventful/adapters/starlette.py closes the bus, and how often.
use eventful.Base.{Bool, ℕ, true, false, String, Option, none, some}
use eventful.Exceptions.{Result, ok, err}
use eventful.Runtime.{Comp}
use eventful.StarletteAdapter.{EventfulMiddleware, State, close}

module _ {W : Type 0} (m : EventfulMiddleware) (close_bus : Option (Comp W (Unit {0})))
    (send : String → Comp (State W) (Unit {0})) where
  abbrev shut : Comp (State W) (Unit {0})
  shut = close m close_bus send

  abbrev closing : State W → State W
  closing s = record s { closed = true }

  abbrev Application : Type 0
  Application = (String → Comp (State W) (Unit {0})) → Comp (State W) (Unit {0})

abbrev is_made : Option ℕ → Bool
is_made none = true
is_made (some b) = false

flag_of : Result EventfulMiddleware → Bool → Bool
flag_of (ok m) b = m.close_on_shutdown
flag_of (err e) b = b
