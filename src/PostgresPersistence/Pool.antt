-- ===== src/PostgresPersistence/Pool.antt =====
-- The pool of a store of src/eventful/persistence/postgres_persistence.py.
use eventful.Base.{Bool, true, false, refl, arith, if◌then◌else◌}
use eventful.Exceptions.{Result, ok, err, store_error}
use eventful.Runtime.{Comp}
use eventful.Codec.{Codec}
use eventful.PostgresPersistence.{State, Driver}
use eventful.PostgresPersistence.Operations.{
  require_pool, open_, ensure_not_closed, open_missing, created,
}
use eventful.PostgresPersistence.Rows.{Ends, Runs, bind-Runs, SameTables, SameTables-refl, Reports}

module _ {B D : Type 0} (same : B → B → Bool) (codec : Codec B) (driver : Driver D)
    (owns_pool : Bool) (s : State B D) where
  -- What `require_pool` does to the tables: nothing.
  created-Ends :
      (r : Result (Unit {0})) (t : State B D)
      → SameTables s t
      → Ends
          (λ _ u. SameTables s u)
          (Reports s)
          (created same codec driver owns_pool r t).0
          (created same codec driver owns_pool r t).1
  created-Ends (ok _) t h = record { version = h.version; rows = h.rows; next = h.next }
  created-Ends (err e) t h = (
    record { kept = ground arith },
    record { version = h.version; rows = h.rows; next = ground (arith, h.next) },
  )

  open_missing-Runs :
      (present : Bool) (t : State B D)
      → SameTables s t
      → Runs
          (λ _ u. SameTables s u)
          (Reports s)
          (open_missing same codec driver owns_pool present)
          t
  open_missing-Runs true t h = h
  open_missing-Runs false t h =
      created-Ends (driver.create_pool t.driver).0
        (record t { driver = (driver.create_pool t.driver).1 })
        (record { version = h.version; rows = h.rows; next = h.next })

  refused-Ends :
      (closed : Bool) (t : State B D)
      → SameTables s t
      → Ends (λ _ u. SameTables s u) (Reports s) (if closed then err store_error else ok tt) t
  refused-Ends true t h = (
    record { kept = refl },
    record { version = h.version; rows = h.rows; next = ground (arith, h.next) },
  )
  refused-Ends false t h = h

  pub require_pool-Runs :
      Runs (λ _ u. SameTables s u) (Reports s) (require_pool same codec driver owns_pool) s
  unfolding require_pool open_
  require_pool-Runs =
      let Q : Unit {0} → State B D → Type 0 = λ _ u. SameTables s u in
      let refuse : Comp (State B D) (Unit {0}) = ensure_not_closed same codec driver owns_pool in
      bind-Runs (Reports s) Q Q refuse (λ _. open_ same codec driver owns_pool) s
        (refused-Ends s.closed s (SameTables-refl s))
        (λ _ t h.
          bind-Runs (Reports s) Q Q refuse
            (λ _ u. open_missing same codec driver owns_pool u.pool u) t (refused-Ends t.closed t h)
            (λ _ u k. open_missing-Runs u.pool u k))
