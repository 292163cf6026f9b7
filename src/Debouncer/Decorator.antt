-- ===== src/Debouncer/Decorator.antt =====
-- src/eventful/utilities/debounce.py: the decorator `debounce`, with the timers of its wrapper.
use eventful.Base.{
  not, ℕ, suc, ◌+◌, Option, none, some, List, [], ◌∷◌, ◌++◌, ◌==◌, leb, if◌then◌else◌, keep_if,
}
use eventful.Event.{Value}

-- A timer that was started, and neither ran nor was cancelled, with the event of its `delayed_call`.
pub record WaitingCall : Type 0 where
  pub ident : ℕ
  pub due : ℕ
  pub event : Value

-- The variables of the decorator, its timers, the identity of the next one, and the events that the
-- function has been called with, the last one last.
pub record Debounced : Type 0 where
  pub last_call_time : ℕ
  pub timer : Option ℕ
  pub waiting : List WaitingCall
  pub next_ident : ℕ
  pub calls : List Value

abbrev pub new_debounced : Debounced
new_debounced = record {
  last_call_time = 0;
  timer = none;
  waiting = [];
  next_ident = 0;
  calls = [];
}

-- `if timer: timer.cancel()`
unfoldable pub cancel_waiting : Option ℕ → List WaitingCall → List WaitingCall
unfolding keep_if
cancel_waiting none ws = ws
cancel_waiting (some i) ws = keep_if (λ w. not (w.ident == i)) ws

-- `wrapper`
unfoldable pub wrapper : (interval current_time : ℕ) → Value → Debounced → Debounced
unfolding cancel_waiting
wrapper interval current_time event s = record s {
  last_call_time = current_time;
  timer = some s.next_ident;
  waiting =
      cancel_waiting s.timer s.waiting
      ++ record { ident = s.next_ident; due = current_time + interval; event = event } ∷ [];
  next_ident = suc s.next_ident;
}

unfoldable pub find_waiting : ℕ → List WaitingCall → Option WaitingCall
find_waiting i [] = none
find_waiting i (w ∷ ws) = let rest = find_waiting i ws in if w.ident == i then some w else rest

abbrev pub call_if_quiet : (interval time : ℕ) → Value → Debounced → Debounced
call_if_quiet interval time event s =
    if leb (s.last_call_time + interval) time then record s { calls = s.calls ++ event ∷ [] } else s

abbrev pub run_waiting : (interval ident time : ℕ) → Option WaitingCall → Debounced → Debounced
run_waiting interval ident time none s = s
run_waiting interval ident time (some w) s =
    if leb w.due time
    then call_if_quiet interval time w.event
        (record s { waiting = cancel_waiting (some ident) s.waiting })
    else s

-- A timer runs when it is due or later, once, unless it was cancelled.
unfoldable pub elapse : (interval ident time : ℕ) → Debounced → Debounced
unfolding find_waiting cancel_waiting
elapse interval ident time s = run_waiting interval ident time (find_waiting ident s.waiting) s
