-- ===== src/Bus/Once.antt =====
-- Application code works on the bus by its public operations. Then a dispatch keeps the bus
-- consistent, and a once-listener that has been claimed is not called again.
use eventful.Base.{
  true, false, ◌<◌, ◌≡◌, arith, if◌then◌else◌, Option-cases, Bool-cases, inl, inr, ◌⊎◌,
}
use eventful.Event.{Ref, EventInput}
use eventful.Exceptions.{Result, ok, err, async_dispatch_required}
use eventful.Listener.{Listener}
use eventful.Runtime.{Runtime}
use eventful.Runtime.Keeps.{Respects}
use eventful.Bus.Registry.{Bus, claim_once, find_topic}
use eventful.Bus.Consistent.{IsConsistent}
use eventful.Bus.Claims.{
  claim_once-Claimed, claim_once-IsConsistent, find_topic-holds, claim_missing,
}
use eventful.Bus.Steps.{
  Reach, unchanged, then_step, claims, Reach-IsConsistent, Retired, Reach-Retired, Reach-preorder,
}
use eventful.Bus.Emit.{
  State, Flow, leave, skip, claim, should_stop, visit_sync, visit_async, emit_sync, emit_async,
}
use eventful.Bus.Keeps.{
  Admits, emit_sync-Keeps, emit_async-Keeps, visit_sync-Keeps, visit_async-Keeps, after_claim_sync,
  after_claim_async, after_claim_sync-Keeps, after_claim_async-Keeps,
}

-- The bus of `t` comes from that of `s` by public operations.
abbrev pub Evolves : {W : Type 0} → State W → State W → Type 0
Evolves s t = Reach s.bus t.bus

pub evolves : {W : Type 0} → Admits {W = W} Evolves
unfolding claim
evolves = record {
  order = Reach-preorder (λ s. s.bus);
  claims = λ l. record { along = λ s. then_step unchanged (claims l) };
  allocates = λ e. record { along = λ s. unchanged };
}

-- A retired listener cannot be claimed.
claim-Retired :
    (l : Listener) (b : Bus)
    → IsConsistent b
    → l.config.once ≡ true
    → Retired l.ident b
    → claim_once l b ≡ (false, b)
claim-Retired l b c once r = elim (Option-cases (find_topic l.ident b.listeners)) [
  | inl e ↦ claim_missing l b once e
  | inr (t, e) ↦
      absurd (ground (arith, find_topic-holds l.ident b.listeners t c.keyed e, r.nowhere t))
]

claim_retires :
    (l : Listener) (b : Bus)
    → IsConsistent b
    → l.config.once ≡ true
    → l.ident < b.next_ident
    → Retired l.ident (claim_once l b).1
claim_retires l b c once old =
    let claimed = claim_once-Claimed l b c once in
    record { nowhere = claimed.gone; existed = omega (arith, claimed.next_ident) }

module _ {W : Type 0} (rt : Runtime (State W)) where
  -- What a round does with a listener that it does not call.
  abbrev pub idle_sync : Ref → Listener → State W → Result Flow × State W
  idle_sync event l s = (
    if should_stop event s
        then ok leave
        else if rt.is_coroutine_function l.func
        then err async_dispatch_required
        else ok skip,
    s,
  )

  abbrev pub idle_async : Ref → State W → Result Flow × State W
  idle_async event s = (if should_stop event s then ok leave else ok skip, s)

  visit_unclaimed :
      (event : Ref) (l : Listener) (s : State W)
      → claim_once l s.bus ≡ (false, s.bus)
      → (visit_sync rt event l s ≡ idle_sync event l s)
        × (visit_async rt event l s ≡ idle_async event s)
  unfolding visit_sync visit_async claim
  visit_unclaimed event l s e = elim (Bool-cases (should_stop event s)) [
    | inl y ↦ (simp y, simp y)
    | inr n ↦ elim (Bool-cases (rt.is_coroutine_function l.func)) [
      | inl y ↦ (simp (n, y), simp (n, e))
      | inr m ↦ (simp (n, m, e), simp (n, e))
    ]
  ]

  abbrev after_claim : Listener → State W → State W
  after_claim l s = record s { bus = (claim_once l s.bus).1 }

module _ {W : Type 0} (rt : Runtime (State W)) (h : Respects Evolves rt) where
  visit_sync_past_tests :
      (event : Ref) (l : Listener) (s : State W)
      → should_stop event s ≡ false
      → rt.is_coroutine_function l.func ≡ false
      → visit_sync rt event l s
        ≡ after_claim_sync evolves rt h event l (claim_once l s.bus).0 (after_claim rt l s)
  unfolding visit_sync claim
  visit_sync_past_tests event l s n m = simp (n, m)

  visit_async_past_tests :
      (event : Ref) (l : Listener) (s : State W)
      → should_stop event s ≡ false
      → visit_async rt event l s
        ≡ after_claim_async evolves rt h event l (claim_once l s.bus).0 (after_claim rt l s)
  unfolding visit_async claim
  visit_async_past_tests event l s n = simp n

  -- Emitting keeps a consistent bus consistent, in either way and whether it returns or raises, when
  -- application code works on the bus by its public operations only.
  pub emit-IsConsistent :
      (input : EventInput) (s : State W)
      → IsConsistent s.bus
      → IsConsistent (emit_sync rt input s).1.bus × IsConsistent (emit_async rt input s).1.bus
  emit-IsConsistent input s c = (
    Reach-IsConsistent ((emit_sync-Keeps evolves rt h input).along s) c,
    Reach-IsConsistent ((emit_async-Keeps evolves rt h input).along s) c,
  )

  -- From a consistent state, where the listener object exists and has `once`.
  module _ (l : Listener) (s : State W) (c : IsConsistent s.bus) (once : l.config.once ≡ true)
      (old : l.ident < (s.bus).next_ident) where
    Retired-by_sync :
        (event : Ref)
        → should_stop event s ≡ false
        → rt.is_coroutine_function l.func ≡ false
        → Retired l.ident (visit_sync rt event l s).1.bus
    Retired-by_sync event n m = rw (visit_sync_past_tests event l s n m) (
        Reach-Retired l.ident
          ((after_claim_sync-Keeps evolves rt h event l (claim_once l s.bus).0).along
            (after_claim rt l s))
          (claim_once-IsConsistent l s.bus c) (claim_retires l s.bus c once old))

    Retired-by_async :
        (event : Ref)
        → should_stop event s ≡ false
        → Retired l.ident (visit_async rt event l s).1.bus
    Retired-by_async event n = rw (visit_async_past_tests event l s n) (
        Reach-Retired l.ident
          ((after_claim_async-Keeps evolves rt h event l (claim_once l s.bus).0).along
            (after_claim rt l s))
          (claim_once-IsConsistent l s.bus c) (claim_retires l s.bus c once old))

    idle_again :
        (t u : State W) (event : Ref)
        → Reach s.bus t.bus
        → Retired l.ident t.bus
        → Evolves t u
        → (visit_sync rt event l u ≡ idle_sync rt event l u)
          × (visit_async rt event l u ≡ idle_async rt event u)
    idle_again t u event st retired tu =
        let ct = Reach-IsConsistent st c in
        let cu = Reach-IsConsistent tu ct in
        visit_unclaimed rt event l u
          (claim-Retired l u.bus cu once (Reach-Retired l.ident tu ct retired))

    -- When application code works on the bus by its public operations only: a once-listener that a
    -- round of a dispatch on a consistent bus has dealt with, past its tests, whether the callback
    -- returned, raised, emitted recursively or changed the registrations, is not called again: in
    -- every later state a round over it, sync or async, only tests and leaves the state as it is.
    pub once_at_most :
        (event later_event : Ref) (u : State W)
        → should_stop event s ≡ false
        → (rt.is_coroutine_function l.func ≡ false) × Evolves (visit_sync rt event l s).1 u
          ⊎ Evolves (visit_async rt event l s).1 u
        → (visit_sync rt later_event l u ≡ idle_sync rt later_event l u)
          × (visit_async rt later_event l u ≡ idle_async rt later_event u)
    once_at_most event later_event u n (inl (m, by_sync)) =
        idle_again (visit_sync rt event l s).1 u later_event
          ((visit_sync-Keeps evolves rt h event l).along s) (Retired-by_sync event n m) by_sync
    once_at_most event later_event u n (inr by_async) =
        idle_again (visit_async rt event l s).1 u later_event
          ((visit_async-Keeps evolves rt h event l).along s) (Retired-by_async event n) by_async
