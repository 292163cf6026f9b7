-- ===== src/Bus/Tests.antt =====
-- Runs of the sample bus, and the theorems about buses at concrete inputs.
use eventful.Base.Dict
use eventful.Router.{store, select, remove_listener, candidates, get_listeners, add_listener}
use eventful.Router.Pattern.{is_wildcard, matches_pattern, match_segments, segments}
use eventful.Middleware.{invoke_sync, wrap}
use eventful.Dispatch
use eventful.Dispatch.{sort_descending}
use eventful.Listener.{matches, subset}
use eventful.Event.{ensure_event, to_set, new_event}
use eventful.Bus.Emit.{
  prepare, ensure, validate_event, listener_snapshot, observe, claim, dispatch, loop, notify,
}
use eventful.Bus.Registry.{find_topic, holds, without}
use eventful.Base.{keep_if, true, false, none, some, List, [], ◌∷◌, ◌≡◌, refl, arith, inl}
use eventful.Event.{nat, event}
use eventful.Exceptions.{ok}
use eventful.Listener.{Listener, high}
use eventful.Dispatch.{dispatch_order}
use eventful.Runtime.{◌>>=◌}
use eventful.Runtime.Keeps.{Respects, KeepsReturned}
use eventful.Bus.Registry.{Bus, insert, register, claim_once, remove_registration, unregister}
use eventful.Bus.Consistent.{IsConsistent}
use eventful.Bus.Consistent.Insert.{insert-IsConsistent}
use eventful.Bus.Claims.{new_bus-IsConsistent, Claimed, claim_once-Claimed}
use eventful.Bus.Steps.{unchanged, then_step, registers, unregisters, Reach-IsConsistent}
use eventful.Bus.Emit.{
  State, visit_sync, visit_async, emit, emit_sync, emit_async, emit_snapshot_sync,
  emit_snapshot_async,
}
use eventful.Bus.Modes.{finish, emit-async_mode}
use eventful.Bus.Once.{Evolves, idle_sync, idle_async, emit-IsConsistent, once_at_most}
use eventful.Bus.Snapshot.{IsPlain, Answers, Answer, returns, stops, fails, expected, reply}
use eventful.Bus.Snapshot.Results.{emit_snapshot_results}
use eventful.Samples.{
  fresh_bus, sample_bus, sample_state, busy, by_priority, answer, logger, guard, greeter, failing,
  stopper,
}

abbrev UnitState : Type 0
UnitState = State (Unit {0})

fresh_bus-IsConsistent : IsConsistent fresh_bus
fresh_bus-IsConsistent = new_bus-IsConsistent by_priority [] none []

sample_bus-IsConsistent : IsConsistent sample_bus
unfolding insert new_event
sample_bus-IsConsistent =
    insert-IsConsistent "order.*" greeter _
      (insert-IsConsistent "order.**" guard _
        (insert-IsConsistent "order.created" logger _ fresh_bus-IsConsistent refl) refl)
      refl

busy-Respects : Respects {S = UnitState} Evolves busy
unfolding register
busy-Respects = record {
  call = λ f r. record {
    along = λ s. then_step unchanged (registers "audit" (some f) (high 0) [] none false _ refl);
    after = λ s. after_call (answer f);
  };
  call_middleware = λ m k h. h;
  call_error_handler = λ h e r f. record { along = λ s. unchanged };
  record_event = λ p r g. record { along = λ s. unchanged };
  validate = λ g r. record { along = λ s. unchanged };
  log = λ x s. unchanged;
}
  where
    after_call : (a : Answer) → KeepsReturned {S = UnitState} Evolves (reply UnitState a)
    after_call (returns v) = tt
    after_call stops = tt
    after_call (fails e) = tt

busy-Answers : Answers busy answer by_priority 0
unfolding insert new_event
busy-Answers = record {
  answered = λ f s. refl;
  declared_sync = λ f. refl;
  call_IsPlain = λ f s p. record {
    dispatcher = p.dispatcher;
    middleware = p.middleware;
    error_handler = p.error_handler;
    observability = p.observability;
    going = p.going;
  };
  log_IsPlain = λ x s p. p;
}

sample_state-IsPlain : IsPlain by_priority 0 sample_state
unfolding insert new_event
sample_state-IsPlain = record {
  dispatcher = refl;
  middleware = refl;
  error_handler = refl;
  observability = refl;
  going = refl;
}

-- Runs.

-- Guard before logger before greeter, by priority; the registrations that the callbacks make
-- meanwhile are not called.
emit_run : (emit_sync busy (event 0) sample_state).0 ≡ ok (nat 2 ∷ nat 1 ∷ nat 3 ∷ [])
unfolding emit_sync prepare ensure ensure_event validate_event insert listener_snapshot
    get_listeners Dict.get add_listener is_wildcard Dict.put matches keep_if matches_pattern
    emit_snapshot_sync observe dispatch_order Dict.del claim dispatch loop notify visit_sync
    claim_once find_topic holds remove_registration without Dispatch.insert sort_descending
    new_event to_set subset invoke_sync wrap match_segments segments candidates remove_listener
    select store
emit_run = refl

-- Instances.

abbrev mixed : List Listener
mixed = logger ∷ stopper ∷ failing ∷ guard ∷ []

emit_snapshot_results_example :
    ((emit_snapshot_sync busy 0 mixed sample_state).0 ≡ ok (nat 2 ∷ []))
    × ((emit_snapshot_async busy 0 mixed sample_state).0 ≡ ok (nat 2 ∷ []))
unfolding dispatch_order expected
emit_snapshot_results_example =
    emit_snapshot_results busy answer by_priority 0 busy-Answers mixed sample_state
      (refl, (refl, (refl, (refl, tt)))) sample_state-IsPlain

emit-IsConsistent_example :
    IsConsistent (emit_sync busy (event 0) sample_state).1.bus
    × IsConsistent (emit_async busy (event 0) sample_state).1.bus
emit-IsConsistent_example =
    emit-IsConsistent busy busy-Respects (event 0) sample_state sample_bus-IsConsistent

abbrev after_first : UnitState
after_first = (visit_sync busy 0 greeter sample_state).1

once_at_most_example :
    (visit_sync busy 0 greeter after_first ≡ idle_sync busy 0 greeter after_first)
    × (visit_async busy 0 greeter after_first ≡ idle_async busy 0 after_first)
unfolding insert new_event
once_at_most_example =
    once_at_most busy busy-Respects greeter sample_state sample_bus-IsConsistent refl (ground arith)
      0 0 after_first refl (inl (refl, unchanged))

claim_once-Claimed_example : Claimed greeter sample_bus (claim_once greeter sample_bus)
claim_once-Claimed_example = claim_once-Claimed greeter sample_bus sample_bus-IsConsistent refl

abbrev unregistered : Bus
unregistered = (unregister "order.*" 3 sample_bus).1

Reach-IsConsistent_example : IsConsistent unregistered
Reach-IsConsistent_example =
    Reach-IsConsistent (then_step unchanged (unregisters "order.*" 3)) sample_bus-IsConsistent

emit-async_mode_example :
    ((emit busy (event 0) (some false) >>= finish) sample_state
      ≡ emit_sync busy (event 0) sample_state)
    × ((emit busy (event 0) (some true) >>= finish) sample_state
        ≡ emit_async busy (event 0) sample_state)
emit-async_mode_example = emit-async_mode busy (event 0) sample_state
