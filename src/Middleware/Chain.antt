-- ===== src/Middleware/Chain.antt =====
-- The nesting of middleware, and the chain as an ordered set.
use mathlib.Core.List.{reverse, reverse-cons}
use eventful.Base.{
  true, false, List, [], ◌∷◌, ◌++◌, has, remove_first, ◌≡◌, refl, arith, ap, Bool-cases, inl, inr,
  some, ==_refl, ◌==◌,
}
use eventful.Event.{Ref}
use eventful.Exceptions.{ok}
use eventful.Listener.{Callable}
use eventful.Runtime.{Comp, Returned, Runtime, ◌>>=◌}
use eventful.Middleware.{
  add, remove, wrap, wrap_async, invoke_sync, invoke_async, reject_awaitable, settle, coroutine,
  terminal,
}

module _ {S : Type 0} (rt : Runtime S) where
  -- The first registered middleware gets the event first; each hands on to the next.
  unfoldable pub nested : List Callable → (Ref → Comp S (Returned S)) → Ref → Comp S (Returned S)
  nested [] h = h
  nested (m ∷ ms) h = rt.call_middleware m (nested ms h)

  unfoldable pub nested_async :
      List Callable → (Ref → Comp S (Returned S)) → Ref → Comp S (Returned S)
  nested_async [] h = h
  nested_async (m ∷ ms) h =
      λ current. coroutine rt (rt.call_middleware m (nested_async ms h) current >>= settle rt)

  wrap-append :
      (ms ns : List Callable) (h : Ref → Comp S (Returned S))
      → wrap rt (ms ++ ns) h ≡ wrap rt ns (wrap rt ms h)
  unfolding wrap
  wrap-append [] ns h = refl
  wrap-append (m ∷ ms) ns h = wrap-append ms ns (rt.call_middleware m h)

  wrap-reverse :
      (ms : List Callable) (h : Ref → Comp S (Returned S)) → wrap rt (reverse ms) h ≡ nested ms h
  unfolding nested wrap
  wrap-reverse [] h = refl
  wrap-reverse (m ∷ ms) h =
      rw (reverse-cons, wrap-append) (ap (rt.call_middleware m) (wrap-reverse ms h))

  wrap_async-append :
      (ms ns : List Callable) (h : Ref → Comp S (Returned S))
      → wrap_async rt (ms ++ ns) h ≡ wrap_async rt ns (wrap_async rt ms h)
  unfolding wrap_async
  wrap_async-append [] ns h = refl
  wrap_async-append (m ∷ ms) ns h = wrap_async-append ms ns _

  wrap_async-reverse :
      (ms : List Callable) (h : Ref → Comp S (Returned S))
      → wrap_async rt (reverse ms) h ≡ nested_async ms h
  unfolding nested_async wrap_async
  wrap_async-reverse [] h = refl
  wrap_async-reverse (m ∷ ms) h =
      rw (reverse-cons, wrap_async-append)
        (ap
          (λ (k : Ref → Comp S (Returned S)).
            λ current. coroutine rt (rt.call_middleware m k current >>= settle rt))
          (wrap_async-reverse ms h))

  -- Both ways of invoking a listener run it through all middleware of the snapshot, the first
  -- registered outermost; sync invocation rejects an awaitable outcome, async invocation awaits it.
  pub invoke-nested :
      (ms : List Callable) (handler : Callable) (event : Ref)
      → (invoke_sync rt ms handler event
          ≡ (nested ms (rt.call handler) event >>= reject_awaitable rt))
        × (invoke_async rt ms handler event
            ≡ (nested_async ms (terminal rt handler) event >>= settle rt))
  unfolding invoke_sync invoke_async
  invoke-nested ms handler event =
      (rw (wrap-reverse ms (rt.call handler)), rw (wrap_async-reverse ms (terminal rt handler)))

-- Each middleware stands once.
abbrev pub IsUnique : List Callable → Type 0
IsUnique [] = Unit
IsUnique (m ∷ ms) = (has m ms ≡ false) × IsUnique ms

has-snoc :
    (m k : Callable) (ms : List Callable)
    → has m ms ≡ false
    → (k == m) ≡ false
    → has m (ms ++ k ∷ []) ≡ false
unfolding has
has-snoc m k [] h d = ground arith
has-snoc m k (n ∷ ms) h d = ground (arith, has-snoc m k ms)

snoc-IsUnique :
    (m : Callable) (ms : List Callable) → has m ms ≡ false → IsUnique ms → IsUnique (ms ++ m ∷ [])
unfolding has
snoc-IsUnique m [] h u = (refl, tt)
snoc-IsUnique m (n ∷ ms) h u =
    (has-snoc n m ms u.0 (ground arith), snoc-IsUnique m ms (ground arith) u.1)

remove_first-snoc :
    (m : Callable) (ms : List Callable) → has m ms ≡ false → remove_first m (ms ++ m ∷ []) ≡ ms
unfolding has remove_first
remove_first-snoc m [] h = rw ==_refl
remove_first-snoc m (n ∷ ms) h = ground (arith, remove_first-snoc m ms)

has-snoc_self : (m : Callable) (ms : List Callable) → has m (ms ++ m ∷ []) ≡ true
unfolding has
has-snoc_self m [] = rw ==_refl
has-snoc_self m (n ∷ ms) = ground (arith, has-snoc_self m ms)

-- Adding to a chain that has each middleware once keeps it so. A new one goes last, and removing it gives the
-- chain back; one that is there already is not added again.
pub add_lem :
    (m : Callable) (ms : List Callable)
    → IsUnique ms
    → (c : List Callable) × (add (some m) ms ≡ ok c)
      × IsUnique c
      × (has m c ≡ true)
      × (has m ms ≡ false → (c ≡ ms ++ m ∷ []) × (remove m c ≡ (true, ms)))
      × (has m ms ≡ true → c ≡ ms)
unfolding add remove
add_lem m ms u = elim (Bool-cases (has m ms)) [
  | inl there ↦ (ms, rw there, u, there, λ h. cc, λ h. refl)
  | inr absent ↦ (
    ms ++ m ∷ [],
    rw absent,
    snoc-IsUnique m ms absent u,
    has-snoc_self m ms,
    λ h. (refl, rw (has-snoc_self, remove_first-snoc m ms h)),
    λ h. cc,
  )
]
