-- ===== src/Bus/Steps.antt =====
-- What application code can do to a bus: sequences of its public operations.
use eventful.Base.{
  Bool, false, ℕ, ◌<◌, String, Option, some, none, List, ◌≡◌, refl, arith, subst, str_eq,
  Bool-cases, Option-cases, inl, inr,
}
use eventful.Event.{Event}
use eventful.Exceptions.{Result, ok}
use eventful.Listener.{Listener, Callable, Priority}
use eventful.Dispatch.{Dispatcher}
use eventful.Bus.Registry.{
  Bus, at, insert, register, registered, holds, remove_registration, unregister, claim_once,
  first_of_func, find_topic,
}
use eventful.Bus.Consistent.{IsConsistent}
use eventful.Bus.Consistent.Insert
use eventful.Bus.Consistent.Take
use eventful.Bus.Claims.{unregister-IsConsistent, claim_once-IsConsistent, register-IsConsistent}
use eventful.Runtime.Keeps.{IsPreorder}

-- One public operation. The last one stands for the setters of the handler, the middleware, the
-- registry, the providers and the dispatcher, which leave the listener tables alone.
pub data Step (b : Bus) : Bus → Type 0 where
  registers :
      (topic : String) (func : Option Callable) (priority : Priority) (tags : List String)
      (filter_fn : Option (Event → Result Bool)) (once : Bool) (b' : Bus)
      → register topic func priority tags filter_fn once b ≡ ok b'
      → Step b b'
  unregisters : (topic : String) (func : Callable) → Step b (unregister topic func b).1
  claims : (l : Listener) → Step b (claim_once l b).1
  configures :
      (handler : Option Callable) (middleware : List Callable) (registry : Option Callable)
      (providers : List Callable) (dispatcher : Dispatcher)
      → Step b (record b {
        error_handler = handler;
        middleware = middleware;
        schema_registry = registry;
        observability = providers;
        dispatcher = dispatcher;
      })

pub data Reach (b : Bus) : Bus → Type 0 where
  then_step : {c d : Bus} → Reach b c → Step c d → Reach b d
  unchanged : Reach b b

pub Reach-trans : {b c d : Bus} → Reach b c → Reach c d → Reach b d
Reach-trans r unchanged = r
Reach-trans r (then_step q s) = then_step (Reach-trans r q) s

Step-IsConsistent : {b c : Bus} → Step b c → IsConsistent b → IsConsistent c
Step-IsConsistent (registers topic func priority tags filter_fn once b' e) h =
    register-IsConsistent topic func priority tags filter_fn once _ b' h e
Step-IsConsistent (unregisters topic func) h = unregister-IsConsistent topic func _ h
Step-IsConsistent (claims l) h = claim_once-IsConsistent l _ h
Step-IsConsistent (configures handler middleware registry providers dispatcher) h = record {
  exact = h.exact;
  pattern = h.pattern;
  patterns_only = h.patterns_only;
  no_patterns = h.no_patterns;
  distinct = h.distinct;
  apart = h.apart;
  old = h.old;
  filled = h.filled;
  keyed = h.keyed;
}

-- Whatever public operations are made on a consistent bus, it stays consistent.
pub Reach-IsConsistent : {b c : Bus} → Reach b c → IsConsistent b → IsConsistent c
Reach-IsConsistent unchanged h = h
Reach-IsConsistent (then_step r s) h = Step-IsConsistent s (Reach-IsConsistent r h)

-- A listener object that existed, and is registered nowhere.
pub record Retired (i : ℕ) (b : Bus) : Type 0 where
  pub nowhere : (t : String) → holds i (at t b) ≡ false
  pub existed : i < b.next_ident

module _ (i : ℕ) where
  insert-Retired :
      (topic : String) (l : Listener) (b : Bus)
      → IsConsistent b
      → l.ident ≡ b.next_ident
      → Retired i b
      → Retired i (insert topic l b)
  insert-Retired topic l b c fresh h = record {
    nowhere = λ t.
        rw (Insert.held_after topic l b c fresh t i, h.nowhere t)
          (unfold insert in ground (arith, fresh, h.existed));
    existed = unfold insert in omega (arith, h.existed);
  }

  remove_registration-Retired :
      (topic : String) (l : Listener) (b : Bus)
      → IsConsistent b
      → Retired i b
      → Retired i (remove_registration topic l b).1
  unfolding remove_registration
  remove_registration-Retired topic l b c h = elim (Bool-cases (holds l.ident (at topic b))) [
    | inl there ↦ rw there (record {
      nowhere = λ t. rw (Take.held_after topic l b c there t i, h.nowhere t) (ground arith);
      existed = h.existed;
    })
    | inr absent ↦ rw absent h
  ]

  Step-Retired : {b c : Bus} → Step b c → IsConsistent b → Retired i b → Retired i c
  unfolding register unregister claim_once
  Step-Retired (registers topic none priority tags filter_fn once b' e) c h = absurd (ground arith)
  Step-Retired {b} (registers topic (some func) priority tags filter_fn once b' e) c h =
      elim (Bool-cases (str_eq topic "")) [
        | inl empty ↦ absurd (ground arith)
        | inr nonempty ↦
            let l = registered b.next_ident func priority tags filter_fn once in
            let done : insert topic l b ≡ b' = ground arith in
            subst (Retired i) done (insert-Retired topic l b c refl h)
      ]
  Step-Retired {b} (unregisters topic func) c h =
      elim (Option-cases (first_of_func func (at topic b))) [
        | inl e ↦ rw (e, unregister) h
        | inr (l, e) ↦ rw (e, unregister) (remove_registration-Retired topic l b c h)
      ]
  Step-Retired {b} (claims l) c h = elim (Bool-cases l.config.once) [
    | inr no_claim ↦ rw no_claim h
    | inl once ↦ elim (Option-cases (find_topic l.ident b.listeners)) [
      | inl e ↦ rw (once, e) h
      | inr (t, e) ↦ rw (once, e) (remove_registration-Retired t l b c h)
    ]
  ]
  Step-Retired (configures handler middleware registry providers dispatcher) c h = record {
    nowhere = h.nowhere;
    existed = h.existed;
  }

  -- No public operation registers a retired listener object again.
  pub Reach-Retired : {b c : Bus} → Reach b c → IsConsistent b → Retired i b → Retired i c
  Reach-Retired unchanged c h = h
  Reach-Retired (then_step r s) c h = Step-Retired s (Reach-IsConsistent r c) (Reach-Retired r c h)

pub Reach-preorder : {S : Type 0} (bus : S → Bus) → IsPreorder (λ (s t : S). Reach (bus s) (bus t))
Reach-preorder bus = record { here = λ s. unchanged; and_then = λ s t u. Reach-trans }
