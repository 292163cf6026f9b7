-- ===== src/Runtime.antt =====
-- Effects of application code. A computation changes a state and returns or raises; what it wrote
-- before it raised stays written. What the application's callables do is the parameter `Runtime`.
pub mod Keeps
use eventful.Base.{Bool, true, false, ℕ, List, if◌then◌else◌}
use eventful.Event.{Ref, Value}
use eventful.Exceptions.{Exc, Result, ok, err, is_exception}
use eventful.Listener.{Callable}

abbrev pub Comp : Type 0 → Type 0 → Type 0
Comp S A = S → Result A × S

module _ {S : Type 0} where
  abbrev pub pure : {A : Type 0} → A → Comp S A
  pure a s = (ok a, s)

  abbrev pub raise : {A : Type 0} → Exc → Comp S A
  raise e s = (err e, s)

  abbrev pub continue : {A B : Type 0} → Result A → (A → Comp S B) → Comp S B
  continue (ok a) f s = f a s
  continue (err e) f s = (err e, s)

  infixl 5 ◌>>=◌ ◌>>◌
  abbrev pub ◌>>=◌ : {A B : Type 0} → Comp S A → (A → Comp S B) → Comp S B
  ◌>>=◌ m f s = let (r, s') = m s in continue r f s'

  abbrev pub ◌>>◌ : {B : Type 0} → Comp S (Unit {0}) → Comp S B → Comp S B
  m >> k = m >>= λ _. k

  -- `try:` with the outcome handed to the code of the handlers
  abbrev pub attempt : {A : Type 0} → Comp S A → Comp S (Result A)
  attempt m s = let (r, s') = m s in (ok r, s')

  abbrev pub gets : {A : Type 0} → (S → A) → Comp S A
  gets f s = (ok (f s), s)

  abbrev pub modify : (S → S) → Comp S (Unit {0})
  modify f s = (ok tt, f s)

-- What a call returns: a plain value, or an awaitable with what awaiting it does and what its
-- `close` does.
pub data Returned (S : Type 0) : Type 0 where
  plain : Value → Returned S
  awaitable : (awaiting : Comp S Value) (closing : Comp S (Unit {0})) → Returned S

pub data Mode : Type 0 where
  sync async : Mode

-- The attributes handed to observability providers.
pub data Signal : Type 0 where
  dispatch_started : Mode → (listener_count : ℕ) → Signal
  dispatch_failed : Mode → Exc → Signal
  dispatch_completed : Mode → (result_count : ℕ) → Signal
  listener_failed : Exc → Signal
  schema_failed : Exc → Signal

-- The records of `logging`.
pub data LogRecord : Type 0 where
  listener_error : Exc → Callable → Ref → LogRecord
  provider_error : Callable → Ref → LogRecord

-- A callable's behaviour may use the whole state: emit, register or unregister recursively, and
-- change the event.
pub record Runtime (S : Type 0) : Type 0 where
  -- `func(event)`
  pub call : Callable → Ref → Comp S (Returned S)
  -- `middleware(event, next_handler)`
  pub call_middleware : Callable → (Ref → Comp S (Returned S)) → Ref → Comp S (Returned S)
  -- `inspect.iscoroutinefunction` of the object, and of its `__call__` attribute
  pub is_coroutine_function : Callable → Bool
  pub has_coroutine_call : Callable → Bool
  -- `error_handler(exc, event, listener)`
  pub call_error_handler : Callable → Exc → Ref → Callable → Comp S (Unit {0})
  -- `provider.record_event(event, attributes)`
  pub record_event : Callable → Ref → Signal → Comp S (Unit {0})
  -- `registry.validate(event)`
  pub validate : Callable → Ref → Comp S (Unit {0})
  -- `logging.getLogger(__name__).exception(...)`
  pub log : LogRecord → S → S
