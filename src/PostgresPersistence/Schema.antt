-- ===== src/PostgresPersistence/Schema.antt =====
-- src/eventful/persistence/postgres_persistence.py: the schema and its migration.
use eventful.Base.{Bool, true, false, ℕ, Option, none, some, List, [], ltb, if◌then◌else◌}
use eventful.Exceptions.{Result, ok, err, store_error, exception}
use eventful.Runtime.{Comp, pure, raise, ◌>>=◌, ◌>>◌, modify}
use eventful.Codec.{Codec}
use eventful.PostgresPersistence.{State, Driver, transaction, statement, guarded}
use eventful.PostgresPersistence.Table.{Row}
use eventful.PostgresPersistence.Operations.{require_pool}

module _ {B D : Type 0} (same : B → B → Bool) (codec : Codec B) (driver : Driver D)
    (owns_pool : Bool) where
  -- The statements of `migrate`.
  abbrev pub create_schema : Comp (State B D) (Unit {0})
  create_schema s =
      (ok tt, record s { version = elim s.version [ none ↦ some none | some row ↦ some row ] })

  abbrev pub seed_version : Comp (State B D) (Unit {0})
  seed_version s = (
    ok tt,
    record s {
      version = elim s.version [
        | none ↦ none
        | some row ↦ some (elim row [ none ↦ some 0 | some v ↦ some v ])
      ];
    },
  )

  abbrev pub version_of : Option (Option ℕ) → Result ℕ
  version_of (some (some v)) = ok v
  version_of (some none) = err (exception "TypeError")
  version_of none = err (exception "UndefinedTableError")

  abbrev pub created_table : Option (List (Row B)) → Comp (State B D) (Unit {0})
  created_table none s = (ok tt, record s { rows = some [] })
  created_table (some rs) s = (err (exception "DuplicateTableError"), s)

  abbrev pub create_table : Comp (State B D) (Unit {0})
  create_table s = created_table s.rows s

  abbrev pub upgrade : Bool → Comp (State B D) (Unit {0})
  upgrade false = pure tt
  upgrade true = do
    statement driver create_table
    statement driver (pure tt)
    statement driver (modify (λ s. record s { version = some (some 1) }))

  abbrev pub check_version : ℕ → Comp (State B D) (Unit {0})
  check_version v = if ltb 1 v then raise store_error else upgrade (ltb v 1)

  -- The first statement takes an advisory lock.
  abbrev pub migrate_body : Comp (State B D) (Unit {0})
  migrate_body = do
    statement driver (pure tt)
    statement driver create_schema
    statement driver seed_version
    version ← statement driver (λ s. (version_of s.version, s))
    check_version version

  -- `migrate`
  unfoldable pub migrate : Comp (State B D) (Unit {0})
  unfolding require_pool transaction
  migrate = do
    require_pool same codec driver owns_pool
    λ s. guarded (transaction driver migrate_body s)
