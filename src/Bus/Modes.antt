-- ===== src/Bus/Modes.antt =====
-- The compatibility mode `emit` against `emit_sync` and `emit_async`.
use eventful.Base.{true, false, some, List, ◌≡◌, refl}
use eventful.Event.{Ref, Value, EventInput}
use eventful.Exceptions.{Result, ok, err}
use eventful.Listener.{Listener}
use eventful.Runtime.{Comp, Runtime, pure, ◌>>=◌}
use eventful.Bus.Emit.{
  State, Emitted, immediate, deferred, prepare, emit, emit_sync, emit_async, emit_snapshot_sync,
}

-- `await` of a returned awaitable; a list is a result already.
abbrev pub finish : {S : Type 0} → Emitted S → Comp S (List Value)
finish (immediate results) = pure results
finish (deferred m) = m

module _ {W : Type 0} (rt : Runtime (State W)) where
  -- `emit` with `async_=False` is `emit_sync`; with `async_=True`, awaiting what it returns at once is
  -- `emit_async`.
  pub emit-async_mode :
      (input : EventInput) (s : State W)
      → ((emit rt input (some false) >>= finish) s ≡ emit_sync rt input s)
        × ((emit rt input (some true) >>= finish) s ≡ emit_async rt input s)
  unfolding emit emit_sync emit_async
  emit-async_mode input s = by_snapshot (prepare rt input s) refl
    where
      by_results :
          (r : Result (List Value)) (t : State W)
          → ((λ (u : State W). (r, t)) >>= (λ results. pure (immediate results)) >>= finish) s
            ≡ (r, t)
      by_results (ok results) t = refl
      by_results (err e) t = refl

      by_snapshot :
          (x : Result (Ref × List Listener) × State W)
          → prepare rt input s ≡ x
          → ((emit rt input (some false) >>= finish) s ≡ emit_sync rt input s)
            × ((emit rt input (some true) >>= finish) s ≡ emit_async rt input s)
      by_snapshot (err e, t) h = (rw h refl, rw h refl)
      by_snapshot (ok (event, listeners), t) h =
          (rw h (by_results (emit_snapshot_sync rt event listeners t).0 _), rw h refl)
