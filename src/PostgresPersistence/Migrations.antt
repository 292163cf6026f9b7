-- ===== src/PostgresPersistence/Migrations.antt =====
-- What `migrate` of src/eventful/persistence/postgres_persistence.py does to the tables, whatever the
-- driver does.
use eventful.Base.{
  Bool, true, false, ℕ, Option, none, some, List, [], ◌≡◌, refl, sym, subst, ◌∙◌, ap, ◌⊎◌, inl, inr,
  ◌≤◌, ltb, arith,
}
use eventful.Exceptions.{store_error}
use eventful.Runtime.{Comp, pure, raise, ◌>>=◌, ◌>>◌, modify}
use eventful.Codec.{Codec}
use eventful.PostgresPersistence.{State, Driver, statement, on_driver, guarded, transaction}
use eventful.PostgresPersistence.Table.{Row}
use eventful.PostgresPersistence.Operations.{require_pool}
use eventful.PostgresPersistence.Schema.{
  create_schema, seed_version, version_of, created_table, create_table, upgrade, check_version,
  migrate_body, migrate,
}
use eventful.PostgresPersistence.Pool.{require_pool-Runs}
use eventful.PostgresPersistence.Rows.{
  Ends, Runs, bind-Runs, post-Runs, errors-Ends, if-Runs, SameTables, SameTables-refl, NotBack,
  on_driver-Ends, Raises, Reports-Runs, OfTables, transaction-Runs,
}

module _ {B D : Type 0} (s : State B D) where
  -- The tables at a point of the migration.
  record At (version : Option (Option ℕ)) (rs : Option (List (Row B))) (t : State B D)
      : Type 0 where
    row : t.version ≡ version
    rows : t.rows ≡ rs
    next : s.next_position ≤ t.next_position

  At-same :
      (v : Option (Option ℕ)) (rs : Option (List (Row B))) (t u : State B D)
      → SameTables t u
      → At v rs t
      → At v rs u
  At-same v rs t u h k = record {
    row = h.version ∙ k.row;
    rows = h.rows ∙ k.rows;
    next = ground (arith, k.next, h.next);
  }

  statement-At :
      {A : Type 0} (Q : A → State B D → Type 0) (driver : Driver D) (m : Comp (State B D) A)
      (v : Option (Option ℕ)) (rs : Option (List (Row B))) (t : State B D)
      → At v rs t
      → ((u : State B D) → At v rs u → Runs Q (NotBack s) m u)
      → Runs Q (NotBack s) (statement driver m) t
  statement-At Q driver m v rs t h k =
      bind-Runs (NotBack s) (λ _ u. SameTables t u) Q (on_driver driver.send) (λ _. m) t
        (errors-Ends (λ _ u. SameTables t u) (NotBack t) (NotBack s) (driver.send t.driver).0
          (record t { driver = (driver.send t.driver).1 })
          (on_driver-Ends t (driver.send t.driver).0 (driver.send t.driver).1 t (SameTables-refl t))
          (λ _ u n. omega (arith, n, h.next)))
        (λ _ u l. k u (At-same v rs t u l h))

  -- What a migration that returns has done: nothing in a database of version 1, and otherwise it has
  -- made the table of events, which did not exist.
  pub record Migrated (u : Unit {0}) (t : State B D) : Type 0 where
    pub version : t.version ≡ some (some 1)
    pub rows :
        ((s.version ≡ some (some 1)) × (t.rows ≡ s.rows)) ⊎ ((s.rows ≡ none) × (t.rows ≡ some []))
    pub next : s.next_position ≤ t.next_position

  abbrev with_table : Option (Option ℕ) → Option (Option ℕ)
  with_table v = elim v [ none ↦ some none | some row ↦ some row ]

  abbrev with_row : Option (Option ℕ) → Option (Option ℕ)
  with_row v = elim v [
    | none ↦ none
    | some row ↦ some (elim row [ none ↦ some 0 | some v ↦ some v ])
  ]

  -- The version that the migration finds.
  abbrev found_version : Option (Option ℕ) → ℕ
  found_version none = 0
  found_version (some none) = 0
  found_version (some (some v)) = v

  with_row-with_table :
      (v : Option (Option ℕ)) → with_row (with_table v) ≡ some (some (found_version v))
  with_row-with_table none = refl
  with_row-with_table (some none) = refl
  with_row-with_table (some (some v)) = refl

  found_version-one : (v : Option (Option ℕ)) → found_version v ≡ 1 → v ≡ some (some 1)
  found_version-one none h = ground (arith, h)
  found_version-one (some none) h = ground (arith, h)
  found_version-one (some (some v)) h = ap (λ n. some (some n)) h

  module _ (same : B → B → Bool) (codec : Codec B) (driver : Driver D) (owns_pool : Bool) where
    created_table-Runs :
        (rows : Option (List (Row B))) (v : Option (Option ℕ)) (t : State B D)
        → s.rows ≡ rows
        → At v rows t
        → Runs
            (λ _ u. (s.rows ≡ none) × At v (some []) u)
            (NotBack s)
            (created_table same codec driver owns_pool rows)
            t
    created_table-Runs none v t e h = (e, record { row = h.row; rows = refl; next = h.next })
    created_table-Runs (some rs) v t e h = h.next

    create_table-Runs :
        (v : Option (Option ℕ)) (t : State B D)
        → At v s.rows t
        → Runs
            (λ _ u. (s.rows ≡ none) × At v (some []) u)
            (NotBack s)
            (create_table same codec driver owns_pool)
            t
    create_table-Runs v t h =
        created_table-Runs t.rows v t (sym h.rows)
          (record { row = h.row; rows = refl; next = h.next })

    upgrade-Runs :
        (old : Bool) (v : ℕ) (t : State B D)
        → ltb v 1 ≡ old
        → ltb 1 v ≡ false
        → found_version s.version ≡ v
        → At (some (some v)) s.rows t
        → Runs Migrated (NotBack s) (upgrade same codec driver owns_pool old) t
    upgrade-Runs false v t e g f h =
        let one : v ≡ 1 = ground (arith, e, g) in
        record {
          version = h.row ∙ ap (λ n. some (some n)) one;
          rows = inl (found_version-one s.version (f ∙ one), h.rows);
          next = h.next;
        }
    upgrade-Runs true v t e g f h =
        let row : Option (Option ℕ) = some (some v) in
        let Made : Unit {0} → State B D → Type 0 = λ _ u. (s.rows ≡ none) × At row (some []) u in
        let index : Comp (State B D) (Unit {0}) = statement driver (pure tt) in
        let update : Comp (State B D) (Unit {0}) =
          modify (λ u. record u { version = some (some 1) }) in
        let rest : Comp (State B D) (Unit {0}) = index >> statement driver update in
        bind-Runs (NotBack s) Made Migrated
          (statement driver (create_table same codec driver owns_pool)) (λ _. rest) t
          (statement-At Made driver (create_table same codec driver owns_pool) row s.rows t h
            (create_table-Runs row))
          (λ _ u k.
            bind-Runs (NotBack s) Made Migrated index (λ _. statement driver update) u
              (statement-At Made driver (pure tt) row (some []) u k.1 (λ w l. (k.0, l)))
              (λ _ w l.
                statement-At Migrated driver update row (some []) w l.1
                  (λ x m. record { version = refl; rows = inr (l.0, m.rows); next = m.next })))

    version_of-Ends :
        (v : Option (Option ℕ)) (n : ℕ) (t : State B D)
        → v ≡ some (some n)
        → s.next_position ≤ t.next_position
        → Ends (λ m u. (m ≡ n) × (u ≡ t)) (NotBack s) (version_of same codec driver owns_pool v) t
    version_of-Ends (some (some m)) n t e l = (ap found_version e, refl)
    version_of-Ends (some none) n t e l = l
    version_of-Ends none n t e l = l

    check_version-Runs :
        (v : ℕ) (t : State B D)
        → found_version s.version ≡ v
        → At (some (some v)) s.rows t
        → Runs Migrated (NotBack s) (check_version same codec driver owns_pool v) t
    check_version-Runs v t f h =
        if-Runs Migrated (NotBack s) (ltb 1 v) (raise store_error)
          (upgrade same codec driver owns_pool (ltb v 1)) t (λ _. h.next)
          (λ g. upgrade-Runs (ltb v 1) v t refl g f h)

    abbrev Stands : Option (Option ℕ) → Unit {0} → State B D → Type 0
    Stands v _ t = At v s.rows t

    -- The statement that reads the version, and what follows it.
    versioned-Runs :
        (t : State B D)
        → At (with_row (with_table s.version)) s.rows t
        → Runs Migrated
            (NotBack s)
            (statement driver (λ u. (version_of same codec driver owns_pool u.version, u))
              >>= check_version same codec driver owns_pool)
            t
    versioned-Runs t h =
        let v : ℕ = found_version s.version in
        let row : Option (Option ℕ) = some (some v) in
        let Q : ℕ → State B D → Type 0 = λ m u. (v ≡ m) × At row s.rows u in
        let query : Comp (State B D) ℕ =
          λ u. (version_of same codec driver owns_pool u.version, u) in
        bind-Runs (NotBack s) Q Migrated (statement driver query)
          (check_version same codec driver owns_pool) t
          (statement-At Q driver query row s.rows t
            (record { row = h.row ∙ with_row-with_table s.version; rows = h.rows; next = h.next })
            (λ u k.
              post-Runs (NotBack s) (λ m w. (m ≡ v) × (w ≡ u)) Q
                (version_of same codec driver owns_pool u.version) u
                (version_of-Ends u.version v u k.row k.next)
                (λ m w l. (sym l.0, subst (At row s.rows) (sym l.1) k))))
          (λ m u k. check_version-Runs m u k.0 (subst (λ n. At (some (some n)) s.rows u) k.0 k.1))

    migrate_body-Runs :
        (t : State B D)
        → SameTables s t
        → Runs Migrated (NotBack s) (migrate_body same codec driver owns_pool) t
    migrate_body-Runs t h =
        let lock : Comp (State B D) (Unit {0}) = statement driver (pure tt) in
        let create : Comp (State B D) (Unit {0}) = create_schema same codec driver owns_pool in
        let seed : Comp (State B D) (Unit {0}) = seed_version same codec driver owns_pool in
        let v : Option (Option ℕ) = s.version in
        let ask : Comp (State B D) (Unit {0}) =
          statement driver (λ u. (version_of same codec driver owns_pool u.version, u))
          >>= check_version same codec driver owns_pool in
        bind-Runs (NotBack s) (Stands v) Migrated lock
          (λ _. statement driver create >> (statement driver seed >> ask)) t
          (statement-At (Stands v) driver (pure tt) v s.rows t
            (record { row = h.version; rows = h.rows; next = ground (arith, h.next) }) (λ _ k. k))
          (λ _ u k.
            bind-Runs (NotBack s) (Stands (with_table v)) Migrated (statement driver create)
              (λ _. statement driver seed >> ask) u
              (statement-At (Stands (with_table v)) driver create v s.rows u k
                (λ w l. record { row = ap with_table l.row; rows = l.rows; next = l.next }))
              (λ _ w l.
                bind-Runs (NotBack s) (Stands (with_row (with_table v))) Migrated
                  (statement driver seed) (λ _. ask) w
                  (statement-At (Stands (with_row (with_table v))) driver seed (with_table v) s.rows
                    w l (λ x m. record { row = ap with_row m.row; rows = m.rows; next = m.next }))
                  (λ _ x m. versioned-Runs x m)))

    Migrated-OfTables : OfTables Migrated
    Migrated-OfTables = record {
      still = λ _ t d m. record { version = m.version; rows = m.rows; next = m.next };
    }

    -- A migration, whatever the driver does and wherever it fails: if it returns, the schema has version 1,
    -- and either it had version 1 before and the table of events is the same, or there was no table of
    -- events and there is an empty one. If it raises, the exception is a StoreError or no subclass of
    -- Exception, and either the tables are as before or they are as after a return.
    pub migrate-Migrated : Runs Migrated (Raises s Migrated) (migrate same codec driver owns_pool) s
    unfolding migrate
    migrate-Migrated =
        let body : Comp (State B D) (Unit {0}) = migrate_body same codec driver owns_pool in
        let pooled : Comp (State B D) (Unit {0}) = require_pool same codec driver owns_pool in
        bind-Runs (Raises s Migrated) (λ _ t. SameTables s t) Migrated pooled
          (λ _ t. guarded (transaction driver body t)) s
          (Reports-Runs (λ _ t. SameTables s t) Migrated s pooled s
            (require_pool-Runs same codec driver owns_pool s))
          (λ _ t h. transaction-Runs Migrated Migrated-OfTables driver s body t h (λ u k.
            post-Runs (NotBack s) Migrated
              (λ a v. Migrated a v × (s.next_position ≤ v.next_position)) (body u).0 (body u).1
              (migrate_body-Runs u k) (λ _ _ m. (m, m.next))))
