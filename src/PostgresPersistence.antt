-- ===== src/PostgresPersistence.antt =====
-- src/eventful/persistence/postgres_persistence.py: the state of a store and of its database, and the
-- statements that the store sends. No other client uses the tables.
pub mod Table
pub mod Operations
pub mod Rows
pub mod Log
pub mod Pool
pub mod Appends
pub mod Reads
pub mod History
pub mod Quiet
pub mod Retry
pub mod RoundTrip
pub mod Schema
pub mod Migrations
pub mod Tests
use eventful.Base.{
  Bool, true, false, ℕ, suc, String, Option, none, some, List, [], ◌∷◌, ◌++◌, ◌==◌, ltb, leb,
  str_eq, if◌then◌else◌,
}
use eventful.Event.{Event}
use eventful.Exceptions.{Exc, Result, ok, err, is_exception, is_store_error, store_error, exception}
use eventful.PostgresPersistence.Table.{Row, find_key, find_optional}
use eventful.Runtime.{Comp, pure, raise, ◌>>=◌, ◌>>◌, attempt}

-- `pool` tells whether the store has a pool. `version` is the row of the schema table and `rows` the
-- table of events, `none` for a table that does not exist; `next_position` is the sequence of the identity
-- column, which no rollback resets. The rest is the state of the driver.
pub record State (B D : Type 0) : Type 0 where
  pub pool : Bool
  pub closed : Bool
  pub version : Option (Option ℕ)
  pub rows : Option (List (Row B))
  pub next_position : ℕ
  pub driver : D

-- How a commit ends: done, or with an exception, which the driver raises when the database refused the
-- commit and undid the transaction, and also when the database committed and the connection was cut off
-- before it said so.
pub data Commit : Type 0 where
  done : Commit
  refused cut_off : Exc → Commit

-- What `asyncpg` does besides the effect of the statements; each step may raise.
pub record Driver (D : Type 0) : Type 0 where
  pub create_pool : Comp D (Unit {0})
  pub close_pool : Comp D (Unit {0})
  -- entering and leaving `pool.acquire()`
  pub acquire_connection : Comp D (Unit {0})
  pub release_connection : Comp D (Unit {0})
  -- entering `connection.transaction()`, and leaving it without and with an exception
  pub begin : Comp D (Unit {0})
  pub commit : D → Commit × D
  pub rollback : Comp D (Unit {0})
  -- sending a statement, before it takes effect
  pub send : Comp D (Unit {0})

-- `except (StoreError, CancelledError): raise` and `except Exception: raise StoreError`
abbrev pub as_store_error : Exc → Exc
as_store_error e = if is_store_error e then e else if is_exception e then store_error else e

-- What leaving a context raises replaces what happened inside.
abbrev pub replaced : {A : Type 0} → Result A → Result (Unit {0}) → Result A
replaced r (ok _) = r
replaced r (err e) = err e

module _ {B D : Type 0} where
  abbrev pub on_driver : Comp D (Unit {0}) → Comp (State B D) (Unit {0})
  on_driver c s = let (r, d) = c s.driver in (r, record s { driver = d })

  -- A rollback gives the tables back, and leaves the sequence and the driver.
  abbrev pub undone : State B D → State B D → State B D
  undone before after = record after { version = before.version; rows = before.rows }

  abbrev pub committed :
      {A : Type 0} → State B D → A → Commit × D → State B D → Result A × State B D
  committed before a (done, d) after = (ok a, record after { driver = d })
  committed before a (refused e, d) after = (err e, undone before (record after { driver = d }))
  committed before a (cut_off e, d) after = (err e, record after { driver = d })

  -- The transaction is undone also when the rollback raises.
  abbrev pub ended :
      {A : Type 0} → Driver D → State B D → Result A → State B D → Result A × State B D
  ended driver before (err e) after =
      let (r, d) = driver.rollback after.driver in
      (replaced (err e) r, undone before (record after { driver = d }))
  ended driver before (ok a) after = committed before a (driver.commit after.driver) after

  abbrev pub begun :
      {A : Type 0}
      → Driver D
      → Comp (State B D) A
      → Result (Unit {0})
      → State B D
      → Result A × State B D
  begun driver body (err e) s = (err e, s)
  begun driver body (ok _) s = let (r, after) = body s in ended driver s r after

  abbrev pub released : {A : Type 0} → Driver D → Result A → State B D → Result A × State B D
  released driver r s = let (q, s') = on_driver driver.release_connection s in (replaced r q, s')

  -- With a connection, which is released whatever happens.
  abbrev pub acquired :
      {A : Type 0}
      → Driver D
      → Comp (State B D) A
      → Result (Unit {0})
      → State B D
      → Result A × State B D
  acquired driver body (err e) s = (err e, s)
  acquired driver body (ok _) s =
      let (r, s') = on_driver driver.begin s in
      let (outcome, after) = begun driver body r s' in released driver outcome after

  -- `async with pool.acquire() as connection: async with connection.transaction():`
  unfoldable pub transaction : {A : Type 0} → Driver D → Comp (State B D) A → Comp (State B D) A
  transaction driver body s =
      let (r, s') = on_driver driver.acquire_connection s in acquired driver body r s'

  -- A statement takes effect when it has been sent.
  abbrev pub statement : {A : Type 0} → Driver D → Comp (State B D) A → Comp (State B D) A
  statement driver effect = on_driver driver.send >> effect

  -- A statement on the table of events raises when there is none.
  abbrev pub on_rows :
      {A : Type 0}
      → Option (List (Row B))
      → (List (Row B) → Comp (State B D) A)
      → Comp (State B D) A
  on_rows none effect = raise (exception "UndefinedTableError")
  on_rows (some rs) effect = effect rs

  abbrev pub with_rows : {A : Type 0} → (List (Row B) → Comp (State B D) A) → Comp (State B D) A
  with_rows effect s = on_rows s.rows effect s

  abbrev pub inserted : Option (Row B) → Row B → List (Row B) → Comp (State B D) (Option ℕ)
  inserted (some conflict) row rs s = (ok none, record s { next_position = suc s.next_position })
  inserted none row rs s = (
    ok (some s.next_position),
    record s {
      rows = some (rs ++ record row { position = s.next_position } ∷ []);
      next_position = suc s.next_position;
    },
  )

  -- `INSERT ... ON CONFLICT (idempotency_key) DO NOTHING RETURNING position`, of a row whose position
  -- is the next one. A conflict uses up a position too.
  unfoldable pub insert : Row B → Comp (State B D) (Option ℕ)
  unfolding find_key
  insert row = with_rows (λ rs. inserted (find_optional row.idempotency_key rs) row rs)

  abbrev pub guarded : {A : Type 0} → Result A × State B D → Result A × State B D
  guarded (ok a, s) = (ok a, s)
  guarded (err e, s) = (err (as_store_error e), s)
