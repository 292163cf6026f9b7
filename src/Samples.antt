-- ===== src/Samples.antt =====
-- The sample buses and application code of the tests.
use eventful.Base.{true, false, none, [], ◌==◌, if◌then◌else◌}
use eventful.Event.{Event, Ref, null, nat, end, new_event}
use eventful.Exceptions.{ok}
use eventful.Listener.{Listener, Callable, high, low}
use eventful.Dispatch.{Dispatcher}
use eventful.Runtime.{Comp, Runtime, Returned}
use eventful.Bus.Registry.{Bus, new_bus, insert, registered}
use eventful.Bus.Emit.{State}
use eventful.Bus.Snapshot.{Answer, returns, stops, fails, reply}

abbrev pub by_priority : Dispatcher
by_priority = record { enable_priorities = true; propagation_enabled = true }

abbrev pub fresh_bus : Bus
fresh_bus = new_bus by_priority [] none []

-- Listener 1 at the default priority, 2 above it, 3 once-only below it, 9 stops propagation and 8
-- fails.
abbrev pub logger : Listener
logger = registered 0 1 (high 0) [] none false

abbrev pub guard : Listener
guard = registered 1 2 (high 5) [] none false

abbrev pub greeter : Listener
greeter = registered 2 3 (low 0) [] none true

abbrev pub failing : Listener
failing = registered 3 8 (high 9) [] none false

abbrev pub stopper : Listener
stopper = registered 4 9 (high 3) [] none false

abbrev pub sample_bus : Bus
sample_bus =
    insert "order.*" greeter (insert "order.**" guard (insert "order.created" logger fresh_bus))

abbrev pub sample_event : Event
sample_event = new_event "order.created" null end []

abbrev pub sample_state : State (Unit {0})
sample_state = record { bus = sample_bus; heap = λ r. sample_event; next_ref = 1; world = tt }

abbrev pub answer : Callable → Answer
answer f = if f == 9 then stops else if f == 8 then fails "broken" else returns (nat f)

-- Each callable answers, and registers itself once more under another topic.
abbrev pub call : Callable → Ref → Comp (State (Unit {0})) (Returned (State (Unit {0})))
call f r s = (
  reply (State (Unit {0})) (answer f),
  record s { bus = insert "audit" (registered (s.bus).next_ident f (high 0) [] none false) s.bus },
)

abbrev pub busy : Runtime (State (Unit {0}))
busy = record {
  call = call;
  call_middleware = λ m next. next;
  is_coroutine_function = λ f. false;
  has_coroutine_call = λ f. false;
  call_error_handler = λ h e r f s. (ok tt, s);
  record_event = λ p r g s. (ok tt, s);
  validate = λ g r s. (ok tt, s);
  log = λ x s. s;
}
