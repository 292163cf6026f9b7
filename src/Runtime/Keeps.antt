-- ===== src/Runtime/Keeps.antt =====
-- Computations that change the state only along a relation `R`, whether they return or raise.
use eventful.Base.{Bool, true, false, if◌then◌else◌}
use eventful.Event.{Ref}
use eventful.Exceptions.{Exc, Result, ok, err}
use eventful.Listener.{Callable}
use eventful.Runtime.{
  Comp, pure, raise, continue, ◌>>=◌, attempt, gets, modify, Returned, plain, awaitable, Runtime,
  Signal, LogRecord,
}

pub record IsPreorder {S : Type 0} (R : S → S → Type 0) : Type 0 where
  pub here : (s : S) → R s s
  pub and_then : (s t u : S) → R s t → R t u → R s u

module _ {S : Type 0} (R : S → S → Type 0) where
  pub record Keeps {A : Type 0} (m : Comp S A) : Type 0 where
    pub along : (s : S) → R s (m s).1

  -- An awaitable that is returned keeps to `R` too, when it is awaited or closed later.
  abbrev pub KeepsReturned : Result (Returned S) → Type 0
  KeepsReturned (ok (plain v)) = Unit
  KeepsReturned (ok (awaitable awaiting closing)) = Keeps awaiting × Keeps closing
  KeepsReturned (err e) = Unit

  pub record KeepsCall (m : Comp S (Returned S)) : Type 0 where
    pub along : (s : S) → R s (m s).1
    pub after : (s : S) → KeepsReturned (m s).0

  -- The application code keeps to `R`.
  pub record Respects (rt : Runtime S) : Type 0 where
    pub call : (f : Callable) (r : Ref) → KeepsCall (rt.call f r)
    pub call_middleware :
        (m : Callable) (next : Ref → Comp S (Returned S))
        → ((r : Ref) → KeepsCall (next r))
        → (r : Ref) → KeepsCall (rt.call_middleware m next r)
    pub call_error_handler :
        (h : Callable) (e : Exc) (r : Ref) (f : Callable) → Keeps (rt.call_error_handler h e r f)
    pub record_event : (p : Callable) (r : Ref) (g : Signal) → Keeps (rt.record_event p r g)
    pub validate : (g : Callable) (r : Ref) → Keeps (rt.validate g r)
    pub log : (x : LogRecord) (s : S) → R s (rt.log x s)

module _ {S : Type 0} {R : S → S → Type 0} (o : IsPreorder R) where
  pub Keeps-pure : {A : Type 0} (a : A) → Keeps R (pure a)
  Keeps-pure a = record { along = o.here }

  pub Keeps-raise : {A : Type 0} (e : Exc) → Keeps R (raise {A = A} e)
  Keeps-raise e = record { along = o.here }

  pub Keeps-gets : {A : Type 0} (f : S → A) → Keeps R (gets f)
  Keeps-gets f = record { along = o.here }

  pub Keeps-attempt : {A : Type 0} {m : Comp S A} → Keeps R m → Keeps R (attempt m)
  Keeps-attempt k = record { along = k.along }

  pub Keeps-modify : (f : S → S) → ((s : S) → R s (f s)) → Keeps R (modify f)
  Keeps-modify f h = record { along = h }

  pub continue-along :
      {A B : Type 0} (s : S) (r : Result A) (t : S) (f : A → Comp S B)
      → R s t
      → ((a : A) → Keeps R (f a))
      → R s (continue r f t).1
  continue-along s (ok a) t f h k = o.and_then s t (f a t).1 h ((k a).along t)
  continue-along s (err e) t f h k = h

  pub Keeps-bind :
      {A B : Type 0} (m : Comp S A) (f : A → Comp S B)
      → Keeps R m
      → ((a : A) → Keeps R (f a))
      → Keeps R (m >>= f)
  Keeps-bind m f km kf = record { along = λ s. continue-along s (m s).0 (m s).1 f (km.along s) kf }

  pub Keeps-if :
      {A : Type 0} (b : Bool) (m n : Comp S A)
      → Keeps R m
      → Keeps R n
      → Keeps R (λ s. (if b then m else n) s)
  Keeps-if true m n km kn = km
  Keeps-if false m n km kn = kn
