-- ===== src/Middleware.antt =====
-- src/eventful/middleware/__init__.py: the ordered chain that wraps each listener call.
pub mod Chain
pub mod Keeps
pub mod Tests
use mathlib.Core.List.{reverse}
use eventful.Base.{Bool, true, false, List, [], ◌∷◌, ◌++◌, has, remove_first, ◌||◌, if◌then◌else◌}
use eventful.Base.{Option, none, some}
use eventful.Event.{Ref, Value}
use eventful.Exceptions.{Result, ok, err, type_error, async_dispatch_required}
use eventful.Listener.{Callable}
use eventful.Runtime.{Comp, pure, raise, ◌>>=◌, ◌>>◌, Returned, plain, awaitable, Runtime}

-- `add`; `none` is an object that is not callable.
unfoldable pub add : Option Callable → List Callable → Result (List Callable)
unfolding has
add none chain = err type_error
add (some m) chain = ok (if has m chain then chain else chain ++ m ∷ [])

-- `remove`
unfoldable pub remove : Callable → List Callable → Bool × List Callable
unfolding has remove_first
remove m chain = if has m chain then (true, remove_first m chain) else (false, chain)

module _ {S : Type 0} (rt : Runtime S) where
  -- `requires_async`
  unfoldable pub requires_async : List Callable → Bool
  requires_async [] = false
  requires_async (m ∷ ms) =
      rt.is_coroutine_function m || rt.has_coroutine_call m || requires_async ms

  -- The loop of `invoke_sync` over the reversed snapshot: each round wraps the handler so far.
  unfoldable pub wrap : List Callable → (Ref → Comp S (Returned S)) → Ref → Comp S (Returned S)
  wrap [] call = call
  wrap (m ∷ ms) call = wrap ms (rt.call_middleware m call)

  -- An awaitable result is closed and rejected.
  abbrev pub reject_awaitable : Returned S → Comp S Value
  reject_awaitable (plain v) = pure v
  reject_awaitable (awaitable awaiting closing) = do closing; raise async_dispatch_required

  unfoldable pub invoke_sync : List Callable → Callable → Ref → Comp S Value
  unfolding wrap
  invoke_sync snapshot handler event = do
    result ← wrap (reverse snapshot) (rt.call handler) event
    reject_awaitable result

  -- `if inspect.isawaitable(result): return await result`, else the result
  abbrev pub settle : Returned S → Comp S Value
  settle (plain v) = pure v
  settle (awaitable awaiting closing) = awaiting

  -- Calling an `async def` runs nothing yet; closing it before it starts does nothing.
  abbrev pub coroutine : Comp S Value → Comp S (Returned S)
  coroutine body = pure (awaitable body (pure tt))

  unfoldable pub terminal : Callable → Ref → Comp S (Returned S)
  terminal handler current = coroutine (rt.call handler current >>= settle)

  -- The loop of `invoke_async` over the reversed snapshot.
  unfoldable pub wrap_async :
      List Callable → (Ref → Comp S (Returned S)) → Ref → Comp S (Returned S)
  wrap_async [] call = call
  wrap_async (m ∷ ms) call =
      wrap_async ms (λ current. coroutine (rt.call_middleware m call current >>= settle))

  unfoldable pub invoke_async : List Callable → Callable → Ref → Comp S Value
  unfolding wrap_async terminal
  invoke_async snapshot handler event = do
    result ← wrap_async (reverse snapshot) (terminal handler) event
    settle result
