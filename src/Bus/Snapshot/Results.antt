-- ===== src/Bus/Snapshot/Results.antt =====
-- The results of a whole dispatch of a snapshot.
use eventful.Base.{
  false, List, [], ◌∷◌, ◌++◌, map, ◌≡◌, sym, ◌∙◌, ap, All, length, subst, Bool-cases, inl, inr,
}
use mathlib.Core.List.{append-nil, append_assoc}
use eventful.Event.{Ref, Value}
use eventful.Exceptions.{Result, ok}
use eventful.Listener.{Listener, Callable}
use eventful.Dispatch.{Dispatcher, dispatch_order}
use eventful.Runtime.{
  Comp, Runtime, dispatch_started, dispatch_completed, Mode, sync, async, attempt, ◌>>=◌,
}
use eventful.Bus.Emit.{
  State, Flow, visit_sync, visit_async, proceed, loop, conclude, dispatch, emit_snapshot_sync,
  emit_snapshot_async,
}
use eventful.Bus.Snapshot.{
  Answer, returns, stops, fails, expected, IsPlain, Answers, flow, Rounds, observe_plain,
  visit_sync_plain, visit_async_plain,
}

module _ {W : Type 0} (rt : Runtime (State W)) (answer : Callable → Answer) (d : Dispatcher)
    (event : Ref) (h : Answers rt answer d event) where
  abbrev pub answers : List Listener → List Answer
  answers ls = map (λ l. answer l.func) ls

  abbrev pub IsPersistent : List Listener → Type 0
  IsPersistent = All (λ l. l.config.once ≡ false)

  -- A round that ended in a flow goes on accordingly.
  proceed_plain :
      (visit : Listener → Comp (State W) Flow) (l : Listener) (ls : List Listener)
      (results : List Value) (s : State W) (x : Flow)
      → (visit l s).0 ≡ ok x
      → loop visit (l ∷ ls) results s ≡ proceed (loop visit ls) results x (visit l s).1
  unfolding loop
  proceed_plain visit l ls results s x e = rw e

  Ends : List Value → List Answer → Result (List Value) × State W → Type 0
  Ends results rest x =
      (x.0 ≡ ok (results ++ expected d.propagation_enabled rest)) × IsPlain d event x.1

  proceed-Ends :
      (k : List Value → Comp (State W) (List Value)) (a : Answer) (rest : List Answer)
      (results : List Value) (s : State W)
      → IsPlain d event s
      → ((vs : List Value) → Ends vs rest (k vs s))
      → Ends results (a ∷ rest) (proceed k results (flow d.propagation_enabled a) s)
  unfolding Ends expected
  proceed-Ends k (returns v) rest results s p ih =
      let (e, q) = ih (results ++ v ∷ []) in (e ∙ ap ok (append_assoc results (v ∷ []) _), q)
  proceed-Ends k (fails x) rest results s p ih = ih results
  proceed-Ends k stops rest results s p ih = elim (Bool-cases d.propagation_enabled) [
    | inl on ↦ simp on (ap ok (sym (append-nil results)), p)
    | inr off ↦ simp off (ih results)
  ]

  loop_plain :
      (visit : Listener → Comp (State W) Flow)
      → Rounds rt answer d event h visit
      → (ls : List Listener) (results : List Value) (s : State W) → IsPersistent ls
      → IsPlain d event s
      → Ends results (answers ls) (loop visit ls results s)
  unfolding Ends loop expected
  loop_plain visit rounds [] results s persistent p = (ap ok (sym (append-nil results)), p)
  loop_plain visit rounds (l ∷ ls) results s persistent p =
      let (e, q) = rounds l s persistent.0 p in
      subst (Ends results (answers (l ∷ ls)))
        (sym (proceed_plain visit l ls results s (flow d.propagation_enabled (answer l.func)) e))
        (proceed-Ends (loop visit ls) (answer l.func) (answers ls) results (visit l s).1 q
          (λ vs. loop_plain visit rounds ls vs (visit l s).1 persistent.1 q))

  conclude_plain :
      (mode : Mode) (vs : List Value) (s : State W)
      → IsPlain d event s
      → conclude rt mode event (ok vs) s ≡ (ok vs, s)
  conclude_plain mode vs s p =
      simp (observe_plain rt answer d event h (dispatch_completed mode (length vs)) s p)

  dispatch_begins :
      (mode : Mode) (visit : Listener → Comp (State W) Flow) (ls : List Listener) (s : State W)
      → IsPlain d event s
      → dispatch rt mode visit event ls s
        ≡ (attempt (loop visit (dispatch_order d ls) []) >>= conclude rt mode event) s
  unfolding dispatch
  dispatch_begins mode visit ls s p =
      (simp (observe_plain rt answer d event h (dispatch_started mode (length ls)) s p))
      ∙ ap (λ x. (attempt (loop visit (dispatch_order x ls) []) >>= conclude rt mode event) s)
          p.dispatcher

  dispatch_plain :
      (mode : Mode) (visit : Listener → Comp (State W) Flow)
      → Rounds rt answer d event h visit
      → (ls : List Listener) (s : State W) → IsPersistent (dispatch_order d ls)
      → IsPlain d event s
      → (dispatch rt mode visit event ls s).0
        ≡ ok (expected d.propagation_enabled (answers (dispatch_order d ls)))
  unfolding Ends
  dispatch_plain mode visit rounds ls s persistent p =
      let order = dispatch_order d ls in
      let (e, q) = loop_plain visit rounds order [] s persistent p in
      rw (dispatch_begins mode visit ls s p, e)
        (ap (λ x. x.0)
          (conclude_plain mode (expected d.propagation_enabled (answers order))
            (loop visit order [] s).1 q))

  -- On a bus without middleware, providers and error handler, whose callables each have one answer
  -- to the event, the synchronous and the asynchronous dispatch of a snapshot of persistent
  -- listeners both return the results of the listeners in dispatch order: failing listeners are
  -- passed over, StopPropagation ends the list when propagation control is enabled, and what the
  -- callables do to the registrations meanwhile changes nothing.
  pub emit_snapshot_results :
      (ls : List Listener) (s : State W)
      → IsPersistent (dispatch_order d ls)
      → IsPlain d event s
      → ((emit_snapshot_sync rt event ls s).0
          ≡ ok (expected d.propagation_enabled (answers (dispatch_order d ls))))
        × ((emit_snapshot_async rt event ls s).0
            ≡ ok (expected d.propagation_enabled (answers (dispatch_order d ls))))
  unfolding emit_snapshot_sync emit_snapshot_async
  emit_snapshot_results ls s persistent p = (
    dispatch_plain sync (visit_sync rt event) (visit_sync_plain rt answer d event h) ls s persistent
        p,
    dispatch_plain async (visit_async rt event) (visit_async_plain rt answer d event h) ls s
        persistent p,
  )
