-- ===== src/Bus/Emit.antt =====
-- src/eventful/bus.py: validation, snapshots and dispatch. A bus is part of a state that
-- application code reads and changes between the steps of a dispatch.
use mathlib.Core.Bool.{◌||◌}
use eventful.Base.{
  Bool, true, false, suc, Option, none, some, List, [], ◌∷◌, ◌++◌, ◌&&◌, ◌==◌, if◌then◌else◌,
  length,
}
use eventful.Event.{Event, Ref, Value, EventInput, Ensured, given, created, ensure_event}
use eventful.Exceptions.{
  Exc, Result, ok, err, is_exception, async_dispatch_required, stop_propagation,
}
use eventful.Listener.{Listener, Callable}
use eventful.Router.{get_listeners}
use eventful.Dispatch.{dispatch_order}
use eventful.Runtime.{
  Comp, pure, raise, ◌>>=◌, ◌>>◌, attempt, gets, modify, Runtime, Mode, sync, async, Signal,
  dispatch_started, dispatch_failed, dispatch_completed, listener_failed, schema_failed,
  listener_error, provider_error,
}
use eventful.Middleware.{invoke_sync, invoke_async, requires_async}
use eventful.Bus.Registry.{Bus, claim_once}

-- The bus, the `Event` objects by identity, and everything else that application code reads and
-- writes.
pub record State (W : Type 0) : Type 0 where
  pub bus : Bus
  pub heap : Ref → Event
  pub next_ref : Ref
  pub world : W

-- What one round of the dispatch loop does: leave the loop, go on without a result, or with one.
pub data Flow : Type 0 where
  leave : Flow
  skip : Flow
  result : Value → Flow

pub data Emitted (S : Type 0) : Type 0 where
  immediate : List Value → Emitted S
  deferred : Comp S (List Value) → Emitted S

abbrev pub allocate : {W : Type 0} → Event → Comp (State W) Ref
allocate e s = (
  ok s.next_ref,
  record s { heap = λ r. if r == s.next_ref then e else s.heap r; next_ref = suc s.next_ref },
)

abbrev pub place : {W : Type 0} → Ensured → Comp (State W) Ref
place (given r) = pure r
place (created e) = allocate e

-- `ensure_event` as it acts on the objects
unfoldable pub ensure : {W : Type 0} → EventInput → Comp (State W) Ref
ensure input = do ensured ← λ s. (ensure_event input, s); place ensured

abbrev pub stop_flow : Bool → Flow
stop_flow enabled = if enabled then leave else skip

module _ {W : Type 0} where
  -- `_listener_snapshot`
  unfoldable pub listener_snapshot : Ref → Comp (State W) (List Listener)
  listener_snapshot event s = (get_listeners (s.heap event) s.bus.router, s)

  -- `_should_stop`
  abbrev pub should_stop : Ref → State W → Bool
  should_stop event s = s.bus.dispatcher.propagation_enabled && (s.heap event).propagation_stopped

  -- `_claim_once` on the bus of the state
  unfoldable pub claim : Listener → Comp (State W) Bool
  claim l s = let (claimed, b) = claim_once l s.bus in (ok claimed, record s { bus = b })

  -- The `except` clauses of the loops for a listener that raised.
  abbrev pub on_stop : Comp (State W) Flow
  on_stop = do enabled ← gets (λ s. s.bus.dispatcher.propagation_enabled); pure (stop_flow enabled)

  -- A listener that could not be claimed is passed over; another is called through the middleware
  -- of this moment.
  abbrev pub call_claimed :
      (List Callable → Comp (State W) Value)
      → (Result Value → Comp (State W) Flow)
      → Bool
      → Comp (State W) Flow
  call_claimed invoke settle false = pure skip
  call_claimed invoke settle true = do
    chain ← gets (λ s. s.bus.middleware)
    outcome ← attempt (invoke chain)
    settle outcome

  abbrev pub unless_stopped : Bool → Comp (State W) Flow → Comp (State W) Flow
  unless_stopped true m = pure leave
  unless_stopped false m = m

  abbrev pub claim_and_call :
      Listener
      → (List Callable → Comp (State W) Value)
      → (Result Value → Comp (State W) Flow)
      → Comp (State W) Flow
  claim_and_call l invoke settle = do claimed ← claim l; call_claimed invoke settle claimed

  abbrev pub proceed :
      (List Value → Comp (State W) (List Value)) → List Value → Flow → Comp (State W) (List Value)
  proceed rest results leave = pure results
  proceed rest results skip = rest results
  proceed rest results (result v) = rest (results ++ v ∷ [])

  -- The `for` loop over the ordered snapshot, with the body of one round.
  unfoldable pub loop :
      (Listener → Comp (State W) Flow) → List Listener → List Value → Comp (State W) (List Value)
  loop visit [] results = pure results
  loop visit (l ∷ ls) results = do flow ← visit l; proceed (loop visit ls) results flow

module _ {W : Type 0} (rt : Runtime (State W)) where
  -- `except Exception` around one provider: the failure is logged.
  abbrev pub provider_outcome : Callable → Ref → Result (Unit {0}) → Comp (State W) (Unit {0})
  provider_outcome p event (ok _) = pure tt
  provider_outcome p event (err e) =
      if is_exception e then modify (rt.log (provider_error p event)) else raise e

  unfoldable pub notify : List Callable → Ref → Signal → Comp (State W) (Unit {0})
  notify [] event signal = pure tt
  notify (p ∷ ps) event signal = do
    outcome ← attempt (rt.record_event p event signal)
    provider_outcome p event outcome
    notify ps event signal

  -- `_observe`
  unfoldable pub observe : Ref → Signal → Comp (State W) (Unit {0})
  unfolding notify
  observe event signal = do
    providers ← gets (λ s. s.bus.observability)
    notify providers event signal

  abbrev pub validated : Ref → Result (Unit {0}) → Comp (State W) (Unit {0})
  validated event (ok _) = pure tt
  validated event (err e) =
      if is_exception e then (do observe event (schema_failed e); raise e) else raise e

  abbrev pub validate_with : Ref → Option Callable → Comp (State W) (Unit {0})
  validate_with event none = pure tt
  validate_with event (some r) = do outcome ← attempt (rt.validate r event); validated event outcome

  -- `_validate_event`
  unfoldable pub validate_event : Ref → Comp (State W) (Unit {0})
  validate_event event = do
    registry ← gets (λ s. s.bus.schema_registry)
    validate_with event registry

  abbrev pub report : Exc → Ref → Callable → Option Callable → Comp (State W) (Unit {0})
  report e event func none = modify (rt.log (listener_error e func event))
  report e event func (some h) = rt.call_error_handler h e event func

  -- `_handle_error`
  unfoldable pub handle_error : Exc → Ref → Callable → Comp (State W) (Unit {0})
  handle_error e event func = do
    observe event (listener_failed e)
    handler ← gets (λ s. s.bus.error_handler)
    report e event func handler

  abbrev pub on_failure : Ref → Callable → Exc → Comp (State W) Flow
  on_failure event func e =
      if is_exception e then (do handle_error e event func; pure skip) else raise e

  abbrev pub settle_async : Ref → Callable → Result Value → Comp (State W) Flow
  settle_async event func (ok v) = pure (result v)
  settle_async event func (err stop_propagation) = on_stop
  settle_async event func (err e) = on_failure event func e

  -- The sync loop has one clause more.
  abbrev pub settle_sync : Ref → Callable → Result Value → Comp (State W) Flow
  settle_sync event func (err async_dispatch_required) = raise async_dispatch_required
  settle_sync event func r = settle_async event func r

  abbrev pub call_sync : Ref → Listener → Comp (State W) Flow
  call_sync event l =
      if rt.is_coroutine_function l.func
      then raise async_dispatch_required
      else claim_and_call l (λ chain. invoke_sync rt chain l.func event) (settle_sync event l.func)

  abbrev pub call_async : Ref → Listener → Comp (State W) Flow
  call_async event l =
      claim_and_call l (λ chain. invoke_async rt chain l.func event) (settle_async event l.func)

  -- One round of the loop of `_emit_sync`.
  unfoldable pub visit_sync : Ref → Listener → Comp (State W) Flow
  visit_sync event l = do
    stopped ← gets (should_stop event)
    unless_stopped stopped (call_sync event l)

  -- One round of the loop of `_emit_async`.
  unfoldable pub visit_async : Ref → Listener → Comp (State W) Flow
  visit_async event l = do
    stopped ← gets (should_stop event)
    unless_stopped stopped (call_async event l)

  abbrev pub conclude : Mode → Ref → Result (List Value) → Comp (State W) (List Value)
  conclude mode event (ok results) = do
    observe event (dispatch_completed mode (length results))
    pure results
  conclude mode event (err e) =
      if is_exception e then (do observe event (dispatch_failed mode e); raise e) else raise e

  -- `_emit_sync` and `_emit_async` without their loop body.
  unfoldable pub dispatch :
      Mode → (Listener → Comp (State W) Flow) → Ref → List Listener → Comp (State W) (List Value)
  unfolding loop
  dispatch mode visit event listeners = do
    observe event (dispatch_started mode (length listeners))
    dispatcher ← gets (λ s. s.bus.dispatcher)
    outcome ← attempt (loop visit (dispatch_order dispatcher listeners) [])
    conclude mode event outcome

  -- `_emit_sync`
  unfoldable pub emit_snapshot_sync : Ref → List Listener → Comp (State W) (List Value)
  unfolding dispatch visit_sync
  emit_snapshot_sync event = dispatch sync (visit_sync event) event

  -- `_emit_async`
  unfoldable pub emit_snapshot_async : Ref → List Listener → Comp (State W) (List Value)
  unfolding dispatch visit_async
  emit_snapshot_async event = dispatch async (visit_async event) event

  -- What the three emit methods do first.
  unfoldable pub prepare : EventInput → Comp (State W) (Ref × List Listener)
  prepare input = do
    event ← ensure input
    validate_event event
    listeners ← listener_snapshot event
    pure (event, listeners)

  unfoldable pub emit_sync : EventInput → Comp (State W) (List Value)
  emit_sync input = do (event, listeners) ← prepare input; emit_snapshot_sync event listeners

  unfoldable pub emit_async : EventInput → Comp (State W) (List Value)
  emit_async input = do (event, listeners) ← prepare input; emit_snapshot_async event listeners

  unfoldable pub any_coroutine : List Listener → Bool
  any_coroutine [] = false
  any_coroutine (l ∷ ls) = rt.is_coroutine_function l.func || any_coroutine ls

  -- `emit`: an awaitable is returned, and runs nothing yet, when dispatch is asynchronous.
  unfoldable pub emit : EventInput → (async_ : Option Bool) → Comp (State W) (Emitted (State W))
  unfolding any_coroutine
  emit input async_ = do
    (event, listeners) ← prepare input
    chain ← gets (λ s. s.bus.middleware)
    let detected = any_coroutine listeners || requires_async rt chain
    let use_async : Bool = elim async_ [ none ↦ detected | some b ↦ b ]
    if use_async
        then pure (deferred (emit_snapshot_async event listeners))
        else do results ← emit_snapshot_sync event listeners; pure (immediate results)
