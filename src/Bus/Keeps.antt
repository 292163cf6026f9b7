-- ===== src/Bus/Keeps.antt =====
-- A dispatch changes the state only along a preorder that the application code, claims and new
-- objects keep to.
use eventful.Base.{Bool, true, false, Option, none, some, List, [], ◌∷◌, ◌++◌, Bool-cases, inl, inr}
use eventful.Event.{Event, Ref, Value, EventInput, Ensured, given, created, ensure_event}
use eventful.Exceptions.{
  Exc, Result, ok, err, is_exception, async_dispatch_required, stop_propagation,
}
use eventful.Listener.{Listener, Callable}
use eventful.Dispatch.{Dispatcher, dispatch_order}
use eventful.Runtime.{
  Comp, pure, ◌>>=◌, attempt, Runtime, Mode, Signal, schema_failed, listener_failed, sync, async,
  provider_error, listener_error,
}
use eventful.Runtime.Keeps.{
  IsPreorder, Keeps, Respects, Keeps-pure, Keeps-raise, Keeps-gets, Keeps-attempt, Keeps-modify,
  Keeps-bind,
}
use eventful.Middleware.{invoke_sync, invoke_async}
use eventful.Middleware.Keeps.{invoke_sync-Keeps, invoke_async-Keeps}
use eventful.Bus.Emit.{
  State, Flow, leave, skip, result, allocate, ensure, provider_outcome, notify, observe, validated,
  validate_event, listener_snapshot, claim, handle_error, on_stop, on_failure, settle_async,
  settle_sync, call_claimed, visit_sync, visit_async, proceed, loop, conclude, dispatch,
  emit_snapshot_sync, emit_snapshot_async, prepare, emit_sync, emit_async, should_stop, place,
  validate_with, report, stop_flow, unless_stopped, call_sync, call_async,
}

-- What the library itself does to a state besides calling application code.
pub record Admits {W : Type 0} (R : State W → State W → Type 0) : Type 0 where
  pub order : IsPreorder R
  pub claims : (l : Listener) → Keeps R (claim l)
  pub allocates : (e : Event) → Keeps R (allocate e)

module _ {W : Type 0} {R : State W → State W → Type 0} (a : Admits R) (rt : Runtime (State W))
    (h : Respects R rt) where
  open a use {order}

  provider_outcome-Keeps :
      (p : Callable) (event : Ref) (x : Result (Unit {0})) → Keeps R (provider_outcome rt p event x)
  provider_outcome-Keeps p event (ok u) = Keeps-pure order tt
  provider_outcome-Keeps p event (err e) = elim (Bool-cases (is_exception e)) [
    | inl y ↦ rw y (Keeps-modify order (rt.log (provider_error p event)) (h.log _))
    | inr n ↦ rw n (Keeps-raise order e)
  ]

  notify-Keeps : (ps : List Callable) (event : Ref) (g : Signal) → Keeps R (notify rt ps event g)
  unfolding notify
  notify-Keeps [] event g = Keeps-pure order tt
  notify-Keeps (p ∷ ps) event g =
      Keeps-bind order _ _ (Keeps-attempt order (h.record_event p event g))
        λ x. Keeps-bind order _ _ (provider_outcome-Keeps p event x) λ _. notify-Keeps ps event g

  observe-Keeps : (event : Ref) (g : Signal) → Keeps R (observe rt event g)
  unfolding observe
  observe-Keeps event g = Keeps-bind order _ _ (Keeps-gets order _) λ ps. notify-Keeps ps event g

  validated-Keeps : (event : Ref) (x : Result (Unit {0})) → Keeps R (validated rt event x)
  validated-Keeps event (ok u) = Keeps-pure order tt
  validated-Keeps event (err e) = elim (Bool-cases (is_exception e)) [
    | inl y ↦
        rw y (Keeps-bind order _ _ (observe-Keeps event (schema_failed e)) λ _. Keeps-raise order e)
    | inr n ↦ rw n (Keeps-raise order e)
  ]

  validate_with-Keeps : (event : Ref) (x : Option Callable) → Keeps R (validate_with rt event x)
  validate_with-Keeps event none = Keeps-pure order tt
  validate_with-Keeps event (some r) =
      Keeps-bind order _ _ (Keeps-attempt order (h.validate r event)) (validated-Keeps event)

  validate_event-Keeps : (event : Ref) → Keeps R (validate_event rt event)
  unfolding validate_event
  validate_event-Keeps event =
      Keeps-bind order _ (validate_with rt event) (Keeps-gets order (λ s. s.bus.schema_registry))
        (validate_with-Keeps event)

  report-Keeps :
      (e : Exc) (event : Ref) (f : Callable) (x : Option Callable) → Keeps R (report rt e event f x)
  report-Keeps e event f none = Keeps-modify order (rt.log (listener_error e f event)) (h.log _)
  report-Keeps e event f (some g) = h.call_error_handler g e event f

  handle_error-Keeps : (e : Exc) (event : Ref) (f : Callable) → Keeps R (handle_error rt e event f)
  unfolding handle_error
  handle_error-Keeps e event f = Keeps-bind order _ _ (observe-Keeps event (listener_failed e)) λ _.
      Keeps-bind order _ (report rt e event f) (Keeps-gets order (λ s. s.bus.error_handler))
        (report-Keeps e event f)

  on_stop-Keeps : Keeps R on_stop
  on_stop-Keeps =
      Keeps-bind order _ (λ b. pure (stop_flow b))
        (Keeps-gets order (λ s. s.bus.dispatcher.propagation_enabled))
        (λ b. Keeps-pure order (stop_flow b))

  on_failure-Keeps : (event : Ref) (f : Callable) (e : Exc) → Keeps R (on_failure rt event f e)
  on_failure-Keeps event f e = elim (Bool-cases (is_exception e)) [
    | inl y ↦ rw y (Keeps-bind order _ _ (handle_error-Keeps e event f) λ _. Keeps-pure order skip)
    | inr n ↦ rw n (Keeps-raise order e)
  ]

  settle_async-Keeps :
      (event : Ref) (f : Callable) (x : Result Value) → Keeps R (settle_async rt event f x)
  settle_async-Keeps event f (ok v) = Keeps-pure order (result v)
  settle_async-Keeps event f (err stop_propagation) = on_stop-Keeps
  settle_async-Keeps event f (err e) = on_failure-Keeps event f e

  settle_sync-Keeps :
      (event : Ref) (f : Callable) (x : Result Value) → Keeps R (settle_sync rt event f x)
  settle_sync-Keeps event f (ok v) = settle_async-Keeps event f (ok v)
  settle_sync-Keeps event f (err async_dispatch_required) =
      Keeps-raise order async_dispatch_required
  settle_sync-Keeps event f (err e) = settle_async-Keeps event f (err e)

  call_claimed-Keeps :
      (invoke : List Callable → Comp (State W) Value) (settle : Result Value → Comp (State W) Flow)
      → ((ms : List Callable) → Keeps R (invoke ms))
      → ((x : Result Value) → Keeps R (settle x))
      → (b : Bool) → Keeps R (call_claimed invoke settle b)
  call_claimed-Keeps invoke settle ki ks false = Keeps-pure order skip
  call_claimed-Keeps invoke settle ki ks true =
      Keeps-bind order _ (λ ms. attempt (invoke ms) >>= settle)
        (Keeps-gets order (λ s. s.bus.middleware))
        (λ ms. Keeps-bind order _ settle (Keeps-attempt order (ki ms)) ks)

  -- What follows the claim, in the two loops.
  abbrev pub after_claim_sync : Ref → Listener → Bool → Comp (State W) Flow
  after_claim_sync event l =
      call_claimed (λ ms. invoke_sync rt ms l.func event) (settle_sync rt event l.func)

  abbrev pub after_claim_async : Ref → Listener → Bool → Comp (State W) Flow
  after_claim_async event l =
      call_claimed (λ ms. invoke_async rt ms l.func event) (settle_async rt event l.func)

  pub after_claim_sync-Keeps :
      (event : Ref) (l : Listener) (b : Bool) → Keeps R (after_claim_sync event l b)
  after_claim_sync-Keeps event l =
      call_claimed-Keeps (λ ms. invoke_sync rt ms l.func event) (settle_sync rt event l.func)
        (λ ms. invoke_sync-Keeps order rt h ms l.func event) (settle_sync-Keeps event l.func)

  pub after_claim_async-Keeps :
      (event : Ref) (l : Listener) (b : Bool) → Keeps R (after_claim_async event l b)
  after_claim_async-Keeps event l =
      call_claimed-Keeps (λ ms. invoke_async rt ms l.func event) (settle_async rt event l.func)
        (λ ms. invoke_async-Keeps order rt h ms l.func event) (settle_async-Keeps event l.func)

  unless_stopped-Keeps :
      (m : Comp (State W) Flow) (b : Bool) → Keeps R m → Keeps R (unless_stopped b m)
  unless_stopped-Keeps m true k = Keeps-pure order leave
  unless_stopped-Keeps m false k = k

  call_sync-Keeps : (event : Ref) (l : Listener) → Keeps R (call_sync rt event l)
  call_sync-Keeps event l = elim (Bool-cases (rt.is_coroutine_function l.func)) [
    | inl y ↦ rw y (Keeps-raise order async_dispatch_required)
    | inr n ↦ rw n (
        Keeps-bind order _ (after_claim_sync event l) (a.claims l) (after_claim_sync-Keeps event l))
  ]

  pub visit_sync-Keeps : (event : Ref) (l : Listener) → Keeps R (visit_sync rt event l)
  unfolding visit_sync
  visit_sync-Keeps event l =
      Keeps-bind order _ (λ b. unless_stopped b (call_sync rt event l))
        (Keeps-gets order (should_stop event))
        (λ b. unless_stopped-Keeps (call_sync rt event l) b (call_sync-Keeps event l))

  call_async-Keeps : (event : Ref) (l : Listener) → Keeps R (call_async rt event l)
  call_async-Keeps event l =
      Keeps-bind order _ (after_claim_async event l) (a.claims l) (after_claim_async-Keeps event l)

  pub visit_async-Keeps : (event : Ref) (l : Listener) → Keeps R (visit_async rt event l)
  unfolding visit_async
  visit_async-Keeps event l =
      Keeps-bind order _ (λ b. unless_stopped b (call_async rt event l))
        (Keeps-gets order (should_stop event))
        (λ b. unless_stopped-Keeps (call_async rt event l) b (call_async-Keeps event l))

  proceed-Keeps :
      (rest : List Value → Comp (State W) (List Value)) (results : List Value) (x : Flow)
      → ((vs : List Value) → Keeps R (rest vs))
      → Keeps R (proceed rest results x)
  proceed-Keeps rest results leave k = Keeps-pure order results
  proceed-Keeps rest results skip k = k results
  proceed-Keeps rest results (result v) k = k (results ++ v ∷ [])

  loop-Keeps :
      (visit : Listener → Comp (State W) Flow) (ls : List Listener) (results : List Value)
      → ((l : Listener) → Keeps R (visit l))
      → Keeps R (loop visit ls results)
  unfolding loop
  loop-Keeps visit [] results k = Keeps-pure order results
  loop-Keeps visit (l ∷ ls) results k =
      Keeps-bind order _ _ (k l)
        λ x. proceed-Keeps (loop visit ls) results x (λ vs. loop-Keeps visit ls vs k)

  conclude-Keeps :
      (mode : Mode) (event : Ref) (x : Result (List Value)) → Keeps R (conclude rt mode event x)
  conclude-Keeps mode event (ok vs) =
      Keeps-bind order _ _ (observe-Keeps event _) λ _. Keeps-pure order vs
  conclude-Keeps mode event (err e) = elim (Bool-cases (is_exception e)) [
    | inl y ↦ rw y (Keeps-bind order _ _ (observe-Keeps event _) λ _. Keeps-raise order e)
    | inr n ↦ rw n (Keeps-raise order e)
  ]

  dispatch-Keeps :
      (mode : Mode) (visit : Listener → Comp (State W) Flow) (event : Ref) (ls : List Listener)
      → ((l : Listener) → Keeps R (visit l))
      → Keeps R (dispatch rt mode visit event ls)
  unfolding dispatch
  dispatch-Keeps mode visit event ls k = Keeps-bind order _ _ (observe-Keeps event _) λ _.
      Keeps-bind order _ _ (Keeps-gets order _) λ (d : Dispatcher).
        Keeps-bind order _ _ (Keeps-attempt order (loop-Keeps visit (dispatch_order d ls) [] k))
          (conclude-Keeps mode event)

  emit_snapshot_sync-Keeps :
      (event : Ref) (ls : List Listener) → Keeps R (emit_snapshot_sync rt event ls)
  unfolding emit_snapshot_sync
  emit_snapshot_sync-Keeps event ls =
      dispatch-Keeps sync (visit_sync rt event) event ls (visit_sync-Keeps event)

  emit_snapshot_async-Keeps :
      (event : Ref) (ls : List Listener) → Keeps R (emit_snapshot_async rt event ls)
  unfolding emit_snapshot_async
  emit_snapshot_async-Keeps event ls =
      dispatch-Keeps async (visit_async rt event) event ls (visit_async-Keeps event)

  place-Keeps : (x : Ensured) → Keeps R (place x)
  place-Keeps (given r) = Keeps-pure order r
  place-Keeps (created e) = a.allocates e

  ensure-Keeps : (input : EventInput) → Keeps R (ensure input)
  unfolding ensure
  ensure-Keeps input =
      Keeps-bind order (λ s. (ensure_event input, s)) place (record { along = order.here })
        place-Keeps

  prepare-Keeps : (input : EventInput) → Keeps R (prepare rt input)
  unfolding prepare listener_snapshot
  prepare-Keeps input = Keeps-bind order _ _ (ensure-Keeps input) λ event.
      Keeps-bind order _ _ (validate_event-Keeps event)
        λ _. Keeps-bind order _ _ (record { along = order.here }) λ ls. Keeps-pure order (event, ls)

  pub emit_sync-Keeps : (input : EventInput) → Keeps R (emit_sync rt input)
  unfolding emit_sync
  emit_sync-Keeps input =
      Keeps-bind order {A = Ref × List Listener} _ _ (prepare-Keeps input)
        λ x. emit_snapshot_sync-Keeps x.0 x.1

  pub emit_async-Keeps : (input : EventInput) → Keeps R (emit_async rt input)
  unfolding emit_async
  emit_async-Keeps input =
      Keeps-bind order {A = Ref × List Listener} _ _ (prepare-Keeps input)
        λ x. emit_snapshot_async-Keeps x.0 x.1
