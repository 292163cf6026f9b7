-- ===== src/Position.antt =====
-- The texts that src/eventful/stores/memory.py and src/eventful/persistence/postgres_persistence.py
-- use as positions of events.
use eventful.Base.{Bool, true, ℕ}

-- A text as `int` and `str` see it: `int` reads a natural number or a negative one from it, or
-- raises; `canonical` tells whether `str` of the number is the text itself. `negative n` is -(n + 1).
pub data Position : Type 0 where
  natural : (value : ℕ) → (canonical : Bool) → Position
  negative : (value : ℕ) → (canonical : Bool) → Position
  no_number : Position

-- `str(n)`
abbrev pub decimal : ℕ → Position
decimal n = natural n true
