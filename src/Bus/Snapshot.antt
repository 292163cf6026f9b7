-- ===== src/Bus/Snapshot.antt =====
-- What a dispatch returns, computed from the snapshot and the answers of the callables alone.
pub mod Results
use eventful.Base.{
  Bool, true, false, String, none, List, [], ◌∷◌, ◌++◌, map, ◌≡◌, refl, sym, ◌∙◌, arith, ap,
  if◌then◌else◌, All, length, subst, Bool-cases, inl, inr, ◌&&◌,
}
use mathlib.Core.List.{append-nil, append_assoc}
use eventful.Event.{Ref, Value}
use eventful.Exceptions.{Exc, Result, ok, err, stop_propagation, exception}
use eventful.Listener.{Listener, Callable}
use eventful.Dispatch.{Dispatcher, dispatch_order}
use eventful.Runtime.{
  Comp, Runtime, Returned, plain, LogRecord, listener_error, Signal, listener_failed,
  dispatch_started, dispatch_completed, Mode, sync, async, continue, attempt, ◌>>=◌,
}
use eventful.Middleware.{reject_awaitable, settle, invoke_sync, invoke_async, terminal}
use eventful.Middleware.Chain.{nested, nested_async, invoke-nested}
use eventful.Bus.Registry.{Bus, claim_once}
use eventful.Bus.Emit.{
  State, Flow, leave, skip, result, stop_flow, should_stop, claim, notify, observe, handle_error,
  settle_sync, settle_async, visit_sync, visit_async, proceed, loop, conclude, dispatch,
  emit_snapshot_sync, emit_snapshot_async,
}

-- A callable that returns a plain value, raises StopPropagation, or raises another exception.
pub data Answer : Type 0 where
  returns : Value → Answer
  stops : Answer
  fails : String → Answer

abbrev pub outcome : Answer → Result Value
outcome (returns v) = ok v
outcome stops = err stop_propagation
outcome (fails e) = err (exception e)

abbrev pub reply : (S : Type 0) → Answer → Result (Returned S)
reply S (returns v) = ok (plain v)
reply S stops = err stop_propagation
reply S (fails e) = err (exception e)

-- The results of the listeners in order: a failing one adds none, and StopPropagation ends the list
-- when propagation control is enabled.
unfoldable pub expected : Bool → List Answer → List Value
expected control [] = []
expected control (returns v ∷ rest) = v ∷ expected control rest
expected control (stops ∷ rest) = if control then [] else expected control rest
expected control (fails e ∷ rest) = expected control rest

-- No middleware, providers or error handler; the event is not stopped.
pub record IsPlain {W : Type 0} (d : Dispatcher) (event : Ref) (s : State W) : Type 0 where
  pub dispatcher : (s.bus).dispatcher ≡ d
  pub middleware : (s.bus).middleware ≡ []
  pub error_handler : (s.bus).error_handler ≡ none
  pub observability : (s.bus).observability ≡ []
  pub going : (s.heap event).propagation_stopped ≡ false

-- Each callable has one answer to the event; it may change the registrations and anything else but
-- what `IsPlain` names.
pub record Answers {W : Type 0} (rt : Runtime (State W)) (answer : Callable → Answer)
    (d : Dispatcher) (event : Ref) : Type 0 where
  pub answered : (f : Callable) (s : State W) → (rt.call f event s).0 ≡ reply (State W) (answer f)
  pub declared_sync : (f : Callable) → rt.is_coroutine_function f ≡ false
  pub call_IsPlain :
      (f : Callable) (s : State W) → IsPlain d event s → IsPlain d event (rt.call f event s).1
  pub log_IsPlain : (x : LogRecord) (s : State W) → IsPlain d event s → IsPlain d event (rt.log x s)

abbrev pub flow : Bool → Answer → Flow
flow control (returns v) = result v
flow control stops = stop_flow control
flow control (fails e) = skip

module _ {W : Type 0} (rt : Runtime (State W)) (answer : Callable → Answer) (d : Dispatcher)
    (event : Ref) (h : Answers rt answer d event) where
  -- A round that ends in this flow, and leaves the state plain.
  abbrev pub Rounds : (Listener → Comp (State W) Flow) → Type 0
  Rounds visit =
      (l : Listener) (s : State W)
      → l.config.once ≡ false
      → IsPlain d event s
      → ((visit l s).0 ≡ ok (flow d.propagation_enabled (answer l.func)))
        × IsPlain d event (visit l s).1

  call_plain :
      (f : Callable) (s : State W) (k : Returned (State W) → Comp (State W) Value)
      → ((v : Value) (t : State W) → k (plain v) t ≡ (ok v, t))
      → (rt.call f event >>= k) s ≡ (outcome (answer f), (rt.call f event s).1)
  call_plain f s k kv = by_answer (answer f) (h.answered f s)
    where
      by_answer :
          (a : Answer)
          → (rt.call f event s).0 ≡ reply (State W) a
          → (rt.call f event >>= k) s ≡ (outcome a, (rt.call f event s).1)
      by_answer (returns v) e = rw e (kv v (rt.call f event s).1)
      by_answer stops e = rw e
      by_answer (fails x) e = rw e

  invoke_sync_plain :
      (f : Callable) (s : State W)
      → invoke_sync rt [] f event s ≡ (outcome (answer f), (rt.call f event s).1)
  unfolding nested
  invoke_sync_plain f s =
      rw (invoke-nested rt [] f event).0 (call_plain f s (reject_awaitable rt) (λ v t. refl))

  invoke_async_plain :
      (f : Callable) (s : State W)
      → invoke_async rt [] f event s ≡ (outcome (answer f), (rt.call f event s).1)
  unfolding nested_async terminal
  invoke_async_plain f s =
      rw (invoke-nested rt [] f event).1 (call_plain f s (settle rt) (λ v t. refl))

  pub observe_plain :
      (g : Signal) (s : State W) → IsPlain d event s → observe rt event g s ≡ (ok tt, s)
  unfolding observe notify
  observe_plain g s p = simp p.observability

  handle_error_plain :
      (e : Exc) (f : Callable) (s : State W)
      → IsPlain d event s
      → handle_error rt e event f s ≡ (ok tt, rt.log (listener_error e f event) s)
  unfolding handle_error
  handle_error_plain e f s p = simp (observe_plain (listener_failed e) s p, p.error_handler)

  settle-IsPlain :
      (f : Callable) (a : Answer) (s : State W)
      → IsPlain d event s
      → ((settle_async rt event f (outcome a) s).0 ≡ ok (flow d.propagation_enabled a))
        × IsPlain d event (settle_async rt event f (outcome a) s).1
  settle-IsPlain f (returns v) s p = (refl, p)
  settle-IsPlain f stops s p = (simp p.dispatcher, p)
  settle-IsPlain f (fails e) s p =
      rw (handle_error_plain (exception e) f s p)
        (refl, h.log_IsPlain (listener_error (exception e) f event) s p)

  settle_sync_plain :
      (f : Callable) (a : Answer)
      → settle_sync rt event f (outcome a) ≡ settle_async rt event f (outcome a)
  settle_sync_plain f (returns v) = refl
  settle_sync_plain f stops = refl
  settle_sync_plain f (fails e) = refl

  not_stopped : (s : State W) → IsPlain d event s → should_stop event s ≡ false
  not_stopped s p = ground (arith, p.going)

  visit_sync_called :
      (l : Listener) (s : State W)
      → l.config.once ≡ false
      → IsPlain d event s
      → visit_sync rt event l s
        ≡ (attempt (invoke_sync rt (s.bus).middleware l.func event) >>= settle_sync rt event l.func)
            s
  unfolding visit_sync claim claim_once
  visit_sync_called l s persistent p = simp (not_stopped s p, h.declared_sync l.func, persistent)

  visit_async_called :
      (l : Listener) (s : State W)
      → l.config.once ≡ false
      → IsPlain d event s
      → visit_async rt event l s
        ≡ (attempt (invoke_async rt (s.bus).middleware l.func event)
              >>= settle_async rt event l.func)
            s
  unfolding visit_async claim claim_once
  visit_async_called l s persistent p = simp (not_stopped s p, persistent)

  abbrev settled : Callable → State W → Result Flow × State W
  settled f s = settle_async rt event f (outcome (answer f)) (rt.call f event s).1

  called_sync :
      (f : Callable) (s : State W)
      → (attempt (invoke_sync rt [] f event) >>= settle_sync rt event f) s ≡ settled f s
  called_sync f s =
      rw (invoke_sync_plain f s)
        (ap (λ (k : Comp (State W) Flow). k (rt.call f event s).1) (settle_sync_plain f (answer f)))

  called_async :
      (f : Callable) (s : State W)
      → (attempt (invoke_async rt [] f event) >>= settle_async rt event f) s ≡ settled f s
  called_async f s = rw (invoke_async_plain f s)

  pub visit_sync_plain : Rounds (visit_sync rt event)
  visit_sync_plain l s persistent p =
      rw
        (visit_sync_called l s persistent p
          ∙ ap (λ ms. (attempt (invoke_sync rt ms l.func event) >>= settle_sync rt event l.func) s)
              p.middleware
          ∙ called_sync l.func s)
        (settle-IsPlain l.func (answer l.func) (rt.call l.func event s).1
          (h.call_IsPlain l.func s p))

  pub visit_async_plain : Rounds (visit_async rt event)
  visit_async_plain l s persistent p =
      rw
        (visit_async_called l s persistent p
          ∙ ap
              (λ ms. (attempt (invoke_async rt ms l.func event) >>= settle_async rt event l.func) s)
              p.middleware
          ∙ called_async l.func s)
        (settle-IsPlain l.func (answer l.func) (rt.call l.func event s).1
          (h.call_IsPlain l.func s p))
