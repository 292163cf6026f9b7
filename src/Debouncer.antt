-- ===== src/Debouncer.antt =====
-- src/eventful/utilities/debounce.py: the class `Debouncer` and the timers that it starts. Times are
-- ticks; each operation and each run of a timer is one step.
pub mod Decorator
pub mod Delivery
pub mod Tests
use eventful.Base.{
  Bool, true, false, not, ℕ, suc, ◌+◌, Option, none, some, List, [], ◌∷◌, ◌++◌, ◌==◌, leb, str_eq,
  if◌then◌else◌, keep_if,
}
use eventful.Event.{
  Value, null, boolean, nat, neg, text, array, mapping, object, nil, cons, end, field,
}
use eventful.Listener.{Callable}

-- A `threading.Timer` that was started, and neither ran nor was cancelled, with the callback that
-- its `delayed_call` refers to.
pub record Timer : Type 0 where
  pub ident : ℕ
  pub due : ℕ
  pub callback : Option Callable

-- The debouncer, the timers, the identity of the next timer, and the calls of callbacks so far, the
-- last one last. `pending_event` is `null` for `None`.
pub record Debouncer : Type 0 where
  pub interval : ℕ
  pub last_call_time : ℕ
  pub timer : Option ℕ
  pub pending_event : Value
  pub timers : List Timer
  pub next_ident : ℕ
  pub calls : List (Callable × Value)

-- `__init__`
abbrev pub new_debouncer : (interval : ℕ) → Debouncer
new_debouncer interval = record {
  interval = interval;
  last_call_time = 0;
  timer = none;
  pending_event = null;
  timers = [];
  next_ident = 0;
  calls = [];
}

-- `if self.timer: self.timer.cancel()`; cancelling a timer that ran changes nothing.
unfoldable pub stop_timer : Option ℕ → List Timer → List Timer
unfolding keep_if
stop_timer none timers = timers
stop_timer (some i) timers = keep_if (λ t. not (t.ident == i)) timers

-- `trigger`
unfoldable pub trigger : (current_time : ℕ) → Value → Option Callable → Debouncer → Debouncer
unfolding stop_timer
trigger current_time event callback s = record s {
  pending_event = event;
  last_call_time = current_time;
  timer = some s.next_ident;
  timers =
      stop_timer s.timer s.timers
      ++ record { ident = s.next_ident; due = current_time + s.interval; callback = callback } ∷ [];
  next_ident = suc s.next_ident;
}

-- `cancel`
unfoldable pub cancel : Debouncer → Debouncer
unfolding stop_timer
cancel s = record s { timers = stop_timer s.timer s.timers; timer = none; pending_event = null }

-- `flush`
unfoldable pub flush : Debouncer → Value × Debouncer
unfolding stop_timer
flush s = (
  s.pending_event,
  record s { timers = stop_timer s.timer s.timers; timer = none; pending_event = null },
)

unfoldable pub find_timer : ℕ → List Timer → Option Timer
find_timer i [] = none
find_timer i (t ∷ ts) = let rest = find_timer i ts in if t.ident == i then some t else rest

-- What `bool` says of the application's objects.
module _ (object_truth : ℕ → Bool) where
  -- `bool(value)`
  unfoldable pub truth : Value → Bool
  truth null = false
  truth (boolean b) = b
  truth (nat n) = not (n == 0)
  truth (neg n) = true
  truth (text t) = not (str_eq t "")
  truth (array nil) = false
  truth (array (cons v vs)) = true
  truth (mapping end) = false
  truth (mapping (field k v fs)) = true
  truth (object i) = object_truth i

  -- `if callback and self.pending_event: callback(self.pending_event)`
  abbrev pub call_back : Option Callable → Value → List (Callable × Value) → List (Callable × Value)
  call_back none event calls = calls
  call_back (some f) event calls = if truth event then calls ++ (f, event) ∷ [] else calls

  -- `delayed_call`
  unfoldable pub delayed_call : (time : ℕ) → Option Callable → Debouncer → Debouncer
  unfolding truth
  delayed_call time callback s =
      if leb (s.last_call_time + s.interval) time
      then record s { calls = call_back callback s.pending_event s.calls; pending_event = null }
      else s

  abbrev pub run_timer : (ident time : ℕ) → Option Timer → Debouncer → Debouncer
  run_timer ident time none s = s
  run_timer ident time (some t) s =
      if leb t.due time
      then delayed_call time t.callback (record s { timers = stop_timer (some ident) s.timers })
      else s

  -- A timer runs when it is due or later, once, unless it was cancelled.
  unfoldable pub fire : (ident time : ℕ) → Debouncer → Debouncer
  unfolding delayed_call find_timer
  fire ident time s = run_timer ident time (find_timer ident s.timers) s
