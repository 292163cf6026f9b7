-- ===== src/Middleware/Keeps.antt =====
-- Invoking a listener through its middleware changes the state only as the application code does.
use mathlib.Core.List.{reverse}
use eventful.Base.{List, [], ◌∷◌}
use eventful.Event.{Ref, Value}
use eventful.Exceptions.{Result, ok, err, async_dispatch_required}
use eventful.Listener.{Callable}
use eventful.Runtime.{Comp, raise, continue, ◌>>=◌, Returned, plain, awaitable, Runtime}
use eventful.Runtime.Keeps.{
  IsPreorder, Keeps, KeepsCall, KeepsReturned, Respects, Keeps-pure, Keeps-raise, Keeps-bind,
}
use eventful.Middleware.{
  wrap, wrap_async, invoke_sync, invoke_async, reject_awaitable, settle, terminal, coroutine,
}

module _ {S : Type 0} {R : S → S → Type 0} (o : IsPreorder R) (rt : Runtime S)
    (h : Respects R rt) where
  wrap-KeepsCall :
      (ms : List Callable) (call : Ref → Comp S (Returned S))
      → ((r : Ref) → KeepsCall R (call r))
      → (r : Ref) → KeepsCall R (wrap rt ms call r)
  unfolding wrap
  wrap-KeepsCall [] call k r = k r
  wrap-KeepsCall (m ∷ ms) call k r =
      wrap-KeepsCall ms (rt.call_middleware m call) (h.call_middleware m call k) r

  settle_along :
      (s : S) (x : Result (Returned S)) (t : S) (f : Returned S → Comp S Value)
      → R s t
      → KeepsReturned R x
      → ((a : Returned S) → KeepsReturned R (ok a) → Keeps R (f a))
      → R s (continue x f t).1
  settle_along s (ok a) t f st k kf = o.and_then s t (f a t).1 st ((kf a k).along t)
  settle_along s (err e) t f st k kf = st

  call_then :
      (m : Comp S (Returned S)) (f : Returned S → Comp S Value)
      → KeepsCall R m
      → ((a : Returned S) → KeepsReturned R (ok a) → Keeps R (f a))
      → Keeps R (m >>= f)
  call_then m f k kf = record {
    along = λ s. settle_along s (m s).0 (m s).1 f (k.along s) (k.after s) kf;
  }

  reject-Keeps : (a : Returned S) → KeepsReturned R (ok a) → Keeps R (reject_awaitable rt a)
  reject-Keeps (plain v) k = Keeps-pure o v
  reject-Keeps (awaitable awaiting closing) k =
      Keeps-bind o closing (λ _. raise async_dispatch_required) k.1 (λ _. Keeps-raise o _)

  settle-Keeps : (a : Returned S) → KeepsReturned R (ok a) → Keeps R (settle rt a)
  settle-Keeps (plain v) k = Keeps-pure o v
  settle-Keeps (awaitable awaiting closing) k = k.0

  coroutine-KeepsCall : (m : Comp S Value) → Keeps R m → KeepsCall R (coroutine rt m)
  coroutine-KeepsCall m k = record { along = o.here; after = λ s. (k, Keeps-pure o tt) }

  wrap_async-KeepsCall :
      (ms : List Callable) (call : Ref → Comp S (Returned S))
      → ((r : Ref) → KeepsCall R (call r))
      → (r : Ref) → KeepsCall R (wrap_async rt ms call r)
  unfolding wrap_async
  wrap_async-KeepsCall [] call k r = k r
  wrap_async-KeepsCall (m ∷ ms) call k r =
      wrap_async-KeepsCall ms _
        (λ q.
          coroutine-KeepsCall _
            (call_then _ (settle rt) (h.call_middleware m call k q) settle-Keeps))
        r

  pub invoke_sync-Keeps :
      (ms : List Callable) (f : Callable) (r : Ref) → Keeps R (invoke_sync rt ms f r)
  unfolding invoke_sync
  invoke_sync-Keeps ms f r =
      call_then _ (reject_awaitable rt) (wrap-KeepsCall (reverse ms) (rt.call f) (h.call f) r)
        reject-Keeps

  pub invoke_async-Keeps :
      (ms : List Callable) (f : Callable) (r : Ref) → Keeps R (invoke_async rt ms f r)
  unfolding invoke_async terminal
  invoke_async-Keeps ms f r =
      call_then _ (settle rt)
        (wrap_async-KeepsCall (reverse ms) (terminal rt f)
          (λ q. coroutine-KeepsCall _ (call_then _ (settle rt) (h.call f q) settle-Keeps)) r)
        settle-Keeps
