-- ===== src/Debouncer/Delivery.antt =====
-- Which events a debouncer delivers, after any operations before.
use eventful.Base.{
  Bool, true, false, ℕ, suc, ◌+◌, Option, some, List, [], ◌∷◌, ◌≡◌, ◌==◌, ◌&&◌, leb, if◌then◌else◌,
  All,
}
use eventful.Event.{Value}
use eventful.Listener.{Callable}
use eventful.Debouncer.{Timer, Debouncer, trigger, cancel, flush, fire}

-- Every timer that can still run is the debouncer's own.
abbrev pub IsOwn : Option ℕ → List Timer → Type 0
IsOwn timer timers = All (λ t. timer ≡ some t.ident) timers

pub data Operation : Type 0 where
  triggers : (current_time : ℕ) → Value → Option Callable → Operation
  cancels : Operation
  flushes : Operation
  fires : (ident time : ℕ) → Operation

abbrev pub is_trigger : Operation → Bool
is_trigger (triggers now event callback) = true
is_trigger cancels = false
is_trigger flushes = false
is_trigger (fires i time) = false

-- The timer `own` runs at `due` or later, before a cancel or a flush.
unfoldable pub rings : (own due : ℕ) → List Operation → Bool
rings own due [] = false
rings own due (triggers now event callback ∷ os) = false
rings own due (cancels ∷ os) = false
rings own due (flushes ∷ os) = false
rings own due (fires i time ∷ os) =
    let rest = rings own due os in if (own == i) && leb due time then true else rest

module _ (object_truth : ℕ → Bool) where
  unfoldable pub step : Operation → Debouncer → Debouncer
  step (triggers now event callback) s = trigger now event callback s
  step cancels s = cancel s
  step flushes s = (flush s).1
  step (fires i time) s = fire object_truth i time s

  -- The operations, one after the other.
  unfoldable pub run : List Operation → Debouncer → Debouncer
  unfolding step
  run [] s = s
  run (o ∷ os) s = run os (step o s)

  abbrev started : ℕ → Value → Callable → Debouncer → Timer
  started now event f s = record { ident = s.next_ident; due = now + s.interval; callback = some f }

  abbrev triggered : ℕ → Value → Callable → Debouncer → Debouncer
  triggered now event f s = record s {
    pending_event = event;
    last_call_time = now;
    timer = some s.next_ident;
    timers = started now event f s ∷ [];
    next_ident = suc s.next_ident;
  }
