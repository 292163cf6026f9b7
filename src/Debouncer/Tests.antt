-- ===== src/Debouncer/Tests.antt =====
-- Runs of a debouncer, and its theorem at a concrete input.
use eventful.Base.{Bool, true, ℕ, some, List, [], ◌∷◌, ◌≡◌, refl, keep_if}
use eventful.Event.{nat}
use eventful.Debouncer.Decorator.{new_debounced, wrapper, elapse}
use eventful.Debouncer.{new_debouncer, stop_timer, trigger, find_timer, truth, delayed_call, fire}
use eventful.Debouncer.Delivery.{Operation, triggers, fires, cancels, rings, step, run}

abbrev objects : ℕ → Bool
objects i = true

-- A burst of two triggers; the first timer is cancelled, the second calls back once.
abbrev burst : List Operation
burst =
    triggers 0 (nat 1) (some 7)
    ∷ triggers 3 (nat 2) (some 7)
    ∷ fires 0 10
    ∷ fires 1 12
    ∷ fires 1 13
    ∷ fires 1 14
    ∷ []

burst_calls : (run objects burst (new_debouncer 10)).calls ≡ (7, nat 2) ∷ []
unfolding run step trigger fire find_timer delayed_call stop_timer keep_if truth
burst_calls = refl

-- Timers that run early, of another trigger, in time, and too often.
abbrev runs : List Operation
runs = fires 2 35 ∷ fires 1 40 ∷ fires 2 40 ∷ fires 2 41 ∷ cancels ∷ fires 2 42 ∷ []

runs_ring : rings 2 40 runs ≡ true
unfolding rings
runs_ring = refl

-- The same burst of calls of a decorated function: it is called once, with the last event.
decorated_calls :
    (elapse 10 1 13
      (elapse 10 0 12 (wrapper 10 3 (nat 2) (wrapper 10 0 (nat 1) new_debounced)))).calls
    ≡ nat 2 ∷ []
unfolding elapse wrapper keep_if
decorated_calls = refl
