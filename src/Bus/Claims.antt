-- ===== src/Bus/Claims.antt =====
-- Who is registered, and what claiming a once-listener does.
use eventful.Base.{
  keep_if, Bool, true, false, ℕ, String, Option, some, none, List, [], ◌∷◌, ◌≡◌, ◌≢◌, ◌↔◌, refl,
  arith, subst, str_eq, eq_iff, Bool-cases, Option-cases, inl, inr, sym, ◌∙◌,
}
use eventful.Base.Dict
use eventful.Base.Dict.{Dict, IsKeyed}
use eventful.Exceptions.{Result, ok}
use eventful.Listener.{Listener, Callable, Priority}
use eventful.Event.{Event}
use eventful.Dispatch.{Dispatcher}
use eventful.Router.{listed}
use eventful.Bus.Registry.{
  Bus, at, insert, register, registered, holds, without, taken, remove_registration, unregister,
  find_topic, claim_once, first_of_func, new_bus,
}
use eventful.Bus.Consistent.{IsConsistent, at-taken}
use eventful.Bus.Consistent.Insert.{insert-IsConsistent}
use eventful.Bus.Consistent.Take.{taken-IsConsistent, held_after}

pub remove_registration-IsConsistent :
    (topic : String) (l : Listener) (b : Bus)
    → IsConsistent b
    → IsConsistent (remove_registration topic l b).1
unfolding remove_registration
remove_registration-IsConsistent topic l b c = elim (Bool-cases (holds l.ident (at topic b))) [
  | inl there ↦ rw there (taken-IsConsistent topic l b c there)
  | inr absent ↦ rw absent c
]

pub unregister-IsConsistent :
    (topic : String) (func : Callable) (b : Bus)
    → IsConsistent b
    → IsConsistent (unregister topic func b).1
unfolding unregister
unregister-IsConsistent topic func b c = elim (Option-cases (first_of_func func (at topic b))) [
  | inl e ↦ rw (e, unregister) c
  | inr (l, e) ↦ rw (e, unregister) (remove_registration-IsConsistent topic l b c)
]

pub claim_once-IsConsistent :
    (l : Listener) (b : Bus) → IsConsistent b → IsConsistent (claim_once l b).1
unfolding claim_once
claim_once-IsConsistent l b c = elim (Bool-cases l.config.once) [
  | inr no_claim ↦ rw no_claim c
  | inl once ↦ elim (Option-cases (find_topic l.ident b.listeners)) [
    | inl e ↦ rw (once, e) c
    | inr (t, e) ↦ rw (once, e) (remove_registration-IsConsistent t l b c)
  ]
]

pub register-IsConsistent :
    (topic : String) (func : Option Callable) (priority : Priority) (tags : List String)
    (filter_fn : Option (Event → Result Bool)) (once : Bool) (b b' : Bus)
    → IsConsistent b
    → register topic func priority tags filter_fn once b ≡ ok b'
    → IsConsistent b'
unfolding register
register-IsConsistent topic none priority tags filter_fn once b b' c e = absurd (ground arith)
register-IsConsistent topic (some func) priority tags filter_fn once b b' c e =
    elim (Bool-cases (str_eq topic "")) [
      | inl empty ↦ absurd (ground arith)
      | inr nonempty ↦
          let l = registered b.next_ident func priority tags filter_fn once in
          let done : insert topic l b ≡ b' = ground arith in
          subst IsConsistent done (insert-IsConsistent topic l b c refl)
    ]

-- The listener object is registered under some topic.
abbrev pub IsRegistered : ℕ → Bus → Type 0
IsRegistered i b = (topic : String) × (holds i (at topic b) ≡ true)

pub find_topic-holds :
    (i : ℕ) (d : Dict (List Listener)) (t : String)
    → IsKeyed d
    → find_topic i d ≡ some t
    → holds i (listed (Dict.get t d)) ≡ true
unfolding find_topic Dict.get
find_topic-holds i [] t u e = absurd (ground arith)
find_topic-holds i ((k, ls) ∷ d) t u e = ground (arith, find_topic-holds i d t u.1, eq_iff k t, u.0)

find_topic-none :
    (i : ℕ) (d : Dict (List Listener)) (t : String)
    → find_topic i d ≡ none
    → holds i (listed (Dict.get t d)) ≡ false
unfolding find_topic holds Dict.get
find_topic-none i [] t e = refl
find_topic-none i ((k, ls) ∷ d) t e = ground (arith, find_topic-none i d t, eq_iff k t)

without_absent : (i : ℕ) (ls : List Listener) → holds i ls ≡ false → without i ls ≡ ls
unfolding holds without
without_absent i [] h = refl
without_absent i (k ∷ ls) h = ground (arith, without_absent i ls)

-- After a removal nothing else has changed in what is registered.
module _ (topic : String) (l : Listener) (b : Bus) (c : IsConsistent b)
    (there : holds l.ident (at topic b) ≡ true) where
  -- No topic holds the listener any more, since only one did.
  gone : (t : String) → holds l.ident (at t (taken topic l b)) ≡ false
  gone t = elim (Bool-cases (holds l.ident (at t b))) [
    | inl also ↦
        rw (held_after topic l b c there t l.ident, c.apart topic t l.ident there also)
          (ground (arith, eq_iff t t))
    | inr not_there ↦ rw (held_after topic l b c there t l.ident, not_there) (ground arith)
  ]

  others : (t : String) (i : ℕ) → i ≢ l.ident → holds i (at t (taken topic l b)) ≡ holds i (at t b)
  others t i other = rw (held_after topic l b c there t i) (ground arith)

  -- Each list is the one before, without the listener.
  lists_after : (t : String) → at t (taken topic l b) ≡ without l.ident (at t b)
  lists_after t = elim (Bool-cases (str_eq topic t)) [
    | inl e ↦ at-taken topic l b t ∙ rw e (rw ((eq_iff topic t).0 e) refl)
    | inr n ↦
        let absent : holds l.ident (at t b) ≡ false = elim (Bool-cases (holds l.ident (at t b))) [
          | inl also ↦
              absurd
                (let t_is = c.apart topic t l.ident there also in ground (arith, eq_iff topic t))
          | inr is_absent ↦ is_absent
        ] in
        at-taken topic l b t ∙ rw n (sym (without_absent l.ident (at t b) absent))
  ]

-- What claiming does to the bus, for a listener with `once`: the outcome says whether it was
-- registered, each list loses that listener only, the router still agrees with the table, and every
-- other field is as before.
pub record Claimed (l : Listener) (b : Bus) (outcome : Bool × Bus) : Type 0 where
  pub won : (outcome.0 ≡ true) ↔ IsRegistered l.ident b
  pub gone : (t : String) → holds l.ident (at t outcome.1) ≡ false
  pub others : (t : String) (i : ℕ) → i ≢ l.ident → holds i (at t outcome.1) ≡ holds i (at t b)
  pub lists : (t : String) → at t outcome.1 ≡ without l.ident (at t b)
  pub consistent : IsConsistent outcome.1
  pub dispatcher : (outcome.1).dispatcher ≡ b.dispatcher
  pub error_handler : (outcome.1).error_handler ≡ b.error_handler
  pub middleware : (outcome.1).middleware ≡ b.middleware
  pub schema_registry : (outcome.1).schema_registry ≡ b.schema_registry
  pub observability : (outcome.1).observability ≡ b.observability
  pub next_ident : (outcome.1).next_ident ≡ b.next_ident

pub claim_found :
    (l : Listener) (b : Bus) (t : String)
    → IsConsistent b
    → l.config.once ≡ true
    → find_topic l.ident b.listeners ≡ some t
    → claim_once l b ≡ (true, taken t l b)
unfolding claim_once remove_registration
claim_found l b t c once e = simp (once, e, find_topic-holds l.ident b.listeners t c.keyed e)

pub claim_missing :
    (l : Listener) (b : Bus)
    → l.config.once ≡ true
    → find_topic l.ident b.listeners ≡ none
    → claim_once l b ≡ (false, b)
unfolding claim_once
claim_missing l b once e = rw (once, e)

-- On a consistent bus, a claim of a listener with `once` succeeds exactly when the listener object is
-- registered. Afterwards it is registered nowhere, each topic's list is the one before without that
-- listener, in the same order, the router holds the same listeners as the table, and the
-- dispatcher, the error handler, the middleware, the schema registry, the observability hooks and
-- the next identity are as before.
pub claim_once-Claimed :
    (l : Listener) (b : Bus) → IsConsistent b → l.config.once ≡ true → Claimed l b (claim_once l b)
claim_once-Claimed l b c once = elim (Option-cases (find_topic l.ident b.listeners)) [
  | inl e ↦
      let missing = λ (t : String). find_topic-none l.ident b.listeners t e in
      rw (claim_missing l b once e) (record {
        won = (λ h. cc, λ h. absurd (ground (arith, missing h.0, h.1)));
        gone = missing;
        others = λ t i other. refl;
        lists = λ t. sym (without_absent l.ident (at t b) (missing t));
        consistent = c;
        dispatcher = refl;
        error_handler = refl;
        middleware = refl;
        schema_registry = refl;
        observability = refl;
        next_ident = refl;
      })
  | inr (t, e) ↦
      let there = find_topic-holds l.ident b.listeners t c.keyed e in
      rw (claim_found l b t c once e) (record {
        won = (λ h. (t, there), λ h. refl);
        gone = gone t l b c there;
        others = others t l b c there;
        lists = lists_after t l b c there;
        consistent = taken-IsConsistent t l b c there;
        dispatcher = refl;
        error_handler = refl;
        middleware = refl;
        schema_registry = refl;
        observability = refl;
        next_ident = refl;
      })
]

-- A bus that has just been made is consistent.
pub new_bus-IsConsistent :
    (dispatcher : Dispatcher) (middleware : List Callable) (schema_registry : Option Callable)
    (observability : List Callable)
    → IsConsistent (new_bus dispatcher middleware schema_registry observability)
unfolding Dict.get keep_if
new_bus-IsConsistent dispatcher middleware schema_registry observability = record {
  exact = λ t w. refl;
  pattern = λ t w. refl;
  patterns_only = tt;
  no_patterns = λ t w. refl;
  distinct = λ t. tt;
  apart = λ t u i p q. absurd (unfold holds in ground arith);
  old = λ t i p. absurd (unfold holds in ground arith);
  filled = λ t p. cc;
  keyed = tt;
}
