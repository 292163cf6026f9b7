-- ===== src/MemoryStore/Tests.antt =====
-- Runs of the in-memory store, and its theorems at concrete inputs.
use eventful.Base.{Bool, true, false, none, some, [], ◌∷◌, ◌≡◌, refl}
use eventful.Event.{Event, nat, end, new_event}
use eventful.Exceptions.{ok, err, store_error}
use eventful.Position.{Position, decimal, natural}
use eventful.MemoryStore.{Store, append, read, close, enter, can_copy_all, parse_position}
use eventful.MemoryStore.History.{append_all, read-append, close_lem}

abbrev copies : Event → Bool
copies e = true

abbrev first : Event
first = new_event "first" (nat 1) end []

abbrev second : Event
second = new_event "second" (nat 2) end []

abbrev third : Event
third = new_event "third" (nat 3) end []

abbrev one_event : Store
one_event = record { events = first ∷ []; closed = false }

-- "01" is no position.
read_run : read copies (some (natural 1 false)) one_event ≡ err store_error
unfolding read parse_position
read_run = refl

read-append_example :
    (p : Position) × ((append copies (some second) one_event).0 ≡ ok p)
    × (read copies
          (some p)
          (append_all copies (third ∷ []) (append copies (some second) one_event).1)
        ≡ ok (third ∷ []))
    × (read copies none (append_all copies (third ∷ []) (append copies (some second) one_event).1)
        ≡ ok (first ∷ second ∷ third ∷ []))
unfolding can_copy_all
read-append_example = read-append copies second (third ∷ []) one_event refl refl

close_lem_example :
    (append copies (some second) (close copies one_event)
      ≡ (err store_error, close copies one_event))
    × (read copies (some (decimal 0)) (close copies one_event) ≡ err store_error)
    × (enter copies (close copies one_event) ≡ err store_error)
    × (close copies (close copies one_event) ≡ close copies one_event)
close_lem_example = close_lem copies one_event second (some (decimal 0))
