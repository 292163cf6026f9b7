-- ===== src/MemoryStore.antt =====
-- src/eventful/stores/memory.py: the in-memory event store. The lock makes each operation one step.
pub mod History
pub mod Tests
use eventful.Base.{
  Bool, true, false, ℕ, zero, suc, String, Option, none, some, List, [], ◌∷◌, ◌++◌, if◌then◌else◌,
  length,
}
use eventful.Event.{Event}
use eventful.Position.{Position, natural, negative, no_number, decimal}
use eventful.Exceptions.{
  Result, ok, err, is_exception, store_error, type_error, exception, raise_if, ◌>>=◌, ◌>>◌,
}

-- Stored events are copies, so they are values.
pub record Store : Type 0 where
  pub events : List Event
  pub closed : Bool

abbrev pub new_store : Store
new_store = record { events = []; closed = false }

-- `_parse_position`
unfoldable pub parse_position : Option Position → Result ℕ
parse_position none = ok 0
parse_position (some no_number) = err store_error
parse_position (some (negative n canonical)) = err store_error
parse_position (some (natural n canonical)) = if canonical then ok (suc n) else err store_error

-- `_ensure_open`
abbrev pub ensure_open : Store → Result (Unit {0})
ensure_open s = raise_if s.closed store_error

-- `events[start:]`
unfoldable pub drop : {A : Type 0} → ℕ → List A → List A
drop zero xs = xs
drop (suc n) [] = []
drop (suc n) (x ∷ xs) = drop n xs

-- `deepcopy` succeeds on the events whose contents can be copied, and gives an equal value.
module _ (can_copy : Event → Bool) where
  unfoldable pub can_copy_all : List Event → Bool
  can_copy_all [] = true
  can_copy_all (e ∷ es) = let rest = can_copy_all es in if can_copy e then rest else false

  -- `append`; an object that is no `Event` is `none`.
  unfoldable pub append : Option Event → Store → Result Position × Store
  append none s = (err type_error, s)
  append (some event) s = elim (ensure_open s) [
    | err e ↦ (err e, s)
    | ok _ ↦
        if can_copy event
        then (ok (decimal (length s.events)), record s { events = s.events ++ event ∷ [] })
        else (err store_error, s)
  ]

  -- `read`, up to its first `yield`: all events that the iterator will yield are fixed then.
  unfoldable pub read : (after : Option Position) → Store → Result (List Event)
  unfolding can_copy_all drop
  read after s = do
    start ← parse_position after
    ensure_open s
    let snapshot = drop start s.events
    if can_copy_all snapshot then ok snapshot else err store_error

  -- `close`, also at the end of an `async with` block
  unfoldable pub close : Store → Store
  close s = record s { closed = true }

  -- `__aenter__`
  unfoldable pub enter : Store → Result Store
  enter s = ensure_open s >> ok s
