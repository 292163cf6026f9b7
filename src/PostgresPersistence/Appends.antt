-- ===== src/PostgresPersistence/Appends.antt =====
-- What an append to src/eventful/persistence/postgres_persistence.py does to the table of events,
-- whatever the driver does.
use eventful.Base.{
  Bool, true, ℕ, suc, String, Option, none, some, some-injective, List, [], ◌∷◌, ◌++◌, ◌≡◌, refl,
  sym, ◌∙◌, ap, ◌⊎◌, inl, inr, ◌≤◌, arith,
}
use eventful.Event.{Event}
use eventful.Exceptions.{store_error, optimistic_concurrency_error}
use eventful.Position.{Position, decimal}
use eventful.Runtime.{Comp, pure, raise, ◌>>=◌}
use eventful.Codec.{Codec}
use eventful.PostgresPersistence.{
  State, Driver, statement, with_rows, insert, inserted, guarded, transaction,
}
use eventful.PostgresPersistence.Table.{Row, max_position, find_optional}
use eventful.PostgresPersistence.Operations.{
  require_pool, check_expected, check_position, same_position, is_same_event, existing,
  after_insert, row_of, append_body, append_encoded,
}
use eventful.PostgresPersistence.Pool.{require_pool-Runs}
use eventful.PostgresPersistence.Rows.{
  Runs, bind-Runs, post-Runs, errors-Ends, SameTables, SameTables-refl, NotBack, statement-Runs,
  with_rows-Runs, if-Runs, Raises, Reports-Runs, OfTables, transaction-Runs,
}

pub same_position-eq : (m n : Option ℕ) → same_position m n ≡ true → m ≡ n
unfolding same_position
same_position-eq none none h = refl
same_position-eq (some m) (some n) h = ap some (ground (arith, h))
same_position-eq none (some n) h = ground (arith, h)
same_position-eq (some m) none h = ground (arith, h)

module _ {B D : Type 0} (same : B → B → Bool) (codec : Codec B) (driver : Driver D)
    (owns_pool : Bool) where
  -- The expected position is the last one of the table.
  abbrev pub Fits : Option (Option ℕ) → List (Row B) → Type 0
  Fits none rs = Unit
  Fits (some expected) rs = max_position rs ≡ expected

  module _ (event : Event) (key : Option String) (expected : Option (Option ℕ)) (encoded : B)
      (s : State B D) where
    pub record Inserted (rs : List (Row B)) (p : Position) (t : State B D) : Type 0 where
      pub fresh : find_optional key rs ≡ none
      pub position : p ≡ decimal s.next_position
      pub rows :
          t.rows
          ≡ some (
              rs
              ++ record {
                position = s.next_position;
                event_type = event.type;
                media_type = codec.media_type;
                encoded_event = encoded;
                idempotency_key = key;
              }
                ∷ [])
      pub next : t.next_position ≡ suc s.next_position

    pub record Found (rs : List (Row B)) (p : Position) (t : State B D) : Type 0 where
      pub row : Row B
      pub found : find_optional key rs ≡ some row
      pub identical : is_same_event same codec driver owns_pool event encoded row ≡ true
      pub position : p ≡ decimal row.position
      pub rows : t.rows ≡ some rs
      pub next : s.next_position ≤ t.next_position

    pub record Accepted (p : Position) (t : State B D) : Type 0 where
      pub rows : List (Row B)
      pub before : s.rows ≡ some rows
      pub fits : Fits expected rows
      pub version : t.version ≡ s.version
      pub outcome : Inserted rows p t ⊎ Found rows p t

    -- The check of the expected position: afterwards it fits the table, which has not changed.
    abbrev IsLast : Option ℕ → State B D → Type 0
    IsLast p t = SameTables s t × ((rs : List (Row B)) → s.rows ≡ some rs → max_position rs ≡ p)

    abbrev Checked : Option (Option ℕ) → Unit {0} → State B D → Type 0
    Checked ex _ t = SameTables s t × ((rs : List (Row B)) → s.rows ≡ some rs → Fits ex rs)

    check_position-Runs :
        (p current : Option ℕ) (t : State B D)
        → IsLast current t
        → Runs
            (Checked (some p))
            (NotBack s)
            (check_position same codec driver owns_pool p current)
            t
    check_position-Runs p current t h =
        if-Runs (Checked (some p)) (NotBack s) (same_position current p) (pure tt)
          (raise optimistic_concurrency_error) t
          (λ e. (h.0, λ rs k. h.1 rs k ∙ same_position-eq current p e))
          (λ _. ground (arith, h.0.next))

    check_expected-Runs :
        (ex : Option (Option ℕ)) (t : State B D)
        → SameTables s t
        → Runs (Checked ex) (NotBack s) (check_expected same codec driver owns_pool ex) t
    check_expected-Runs none t h = (h, λ _ _. tt)
    check_expected-Runs (some p) t h =
        let Same : Unit {0} → State B D → Type 0 = λ _ u. SameTables s u in
        let lock : Comp (State B D) (Unit {0}) = with_rows (λ _. pure tt) in
        let query : Comp (State B D) (Option ℕ) =
          statement driver (with_rows (λ rs. pure (max_position rs))) in
        bind-Runs (NotBack s) (λ _ u. SameTables s u) (Checked (some p)) (statement driver lock)
          (λ _. query >>= check_position same codec driver owns_pool p) t
          (statement-Runs Same driver lock s t h
            (λ u k. with_rows-Runs Same (λ _. pure tt) s u k (λ _ _. k)))
          (λ _ u k.
            bind-Runs (NotBack s) IsLast (Checked (some p)) query
              (check_position same codec driver owns_pool p) u
              (statement-Runs IsLast driver (with_rows (λ rs. pure (max_position rs))) s u k (λ v l.
                with_rows-Runs IsLast (λ rs. pure (max_position rs)) s v l
                  (λ rs e. (l, λ qs f. ap max_position (some-injective qs rs (sym f ∙ e)) ∙ refl))))
              (λ c v l. check_position-Runs p c v l))

    -- What the insertion gives: the fresh position, or `none` for a clash.
    abbrev Tried : Option ℕ → State B D → Type 0
    Tried (some p) t = Accepted (decimal p) t
    Tried none t =
        (rs : List (Row B)) × (s.rows ≡ some rs)
        × Fits expected rs
        × (t.rows ≡ some rs)
        × (t.version ≡ s.version)
        × (s.next_position ≤ t.next_position)

    inserted-Runs :
        (rs : List (Row B)) (c : Option (Row B)) (t : State B D)
        → find_optional key rs ≡ c
        → s.rows ≡ some rs
        → Fits expected rs
        → SameTables s t
        → Runs Tried
            (NotBack s)
            (inserted c (row_of same codec driver owns_pool event key encoded) rs)
            t
    inserted-Runs rs (some r) t e b f h = (rs, b, f, h.rows ∙ b, h.version, ground (arith, h.next))
    inserted-Runs rs none t e b f h = record {
      rows = rs;
      before = b;
      fits = f;
      version = h.version;
      outcome = inl (record {
        fresh = e;
        position = ap decimal h.next;
        rows =
            ap
              (λ n. some (
                rs
                ++ record (row_of same codec driver owns_pool event key encoded) { position = n }
                  ∷ []))
              h.next;
        next = ap suc h.next;
      });
    }

    verdict-next :
        (rs : List (Row B)) (p : Position) (t : State B D)
        → Inserted rs p t ⊎ Found rs p t
        → s.next_position ≤ t.next_position
    verdict-next rs p t (inl i) = ground (arith, i.next)
    verdict-next rs p t (inr f) = f.next

    Tried-next : (c : Option ℕ) (t : State B D) → Tried c t → s.next_position ≤ t.next_position
    Tried-next none t (rs, b, f, e, v, n) = n
    Tried-next (some p) t h = verdict-next h.rows (decimal p) t h.outcome

    existing-Runs :
        (rs : List (Row B)) (c : Option (Row B)) (t : State B D)
        → find_optional key rs ≡ c
        → s.rows ≡ some rs
        → Fits expected rs
        → t.rows ≡ some rs
        → t.version ≡ s.version
        → s.next_position ≤ t.next_position
        → Runs Accepted (NotBack s) (existing same codec driver owns_pool event encoded c) t
    existing-Runs rs none t e b f h v n = n
    existing-Runs rs (some r) t e b f h v n =
        if-Runs Accepted (NotBack s) (is_same_event same codec driver owns_pool event encoded r)
          (pure (decimal r.position)) (raise store_error) t
          (λ i. record {
            rows = rs;
            before = b;
            fits = f;
            version = v;
            outcome =
                inr (record {
                  row = r;
                  found = e;
                  identical = i;
                  position = refl;
                  rows = h;
                  next = n;
                });
          })
          (λ _. n)

    after_insert-Runs :
        (c : Option ℕ) (t : State B D)
        → Tried c t
        → Runs Accepted (NotBack s) (after_insert same codec driver owns_pool event key encoded c) t
    after_insert-Runs (some p) t h = h
    after_insert-Runs none t (rs, b, f, e, v, n) =
        let lookup : List (Row B) → Comp (State B D) (Option (Row B)) =
          λ rs. pure (find_optional key rs) in
        let Q : Option (Row B) → State B D → Type 0 =
          λ c u. (find_optional key rs ≡ c) × SameTables t u in
        let m : Comp (State B D) (Option (Row B)) = statement driver (with_rows lookup) in
        bind-Runs (NotBack s) Q Accepted m (existing same codec driver owns_pool event encoded) t
          (errors-Ends Q (NotBack t) (NotBack s) (m t).0 (m t).1
            (statement-Runs Q driver (with_rows lookup) t t (SameTables-refl t) (λ u k.
              with_rows-Runs Q lookup t u k
                (λ qs g. (ap (find_optional key) (some-injective rs qs (sym e ∙ g)), k))))
            (λ _ u k. omega (arith, n, k)))
          (λ c u k.
            existing-Runs rs c u k.0 b f (k.1.rows ∙ e) (k.1.version ∙ v)
              (ground (arith, n, k.1.next)))

    append_body-Runs :
        (t : State B D)
        → SameTables s t
        → Runs
            (λ p u. Accepted p u × (s.next_position ≤ u.next_position))
            (NotBack s)
            (append_body same codec driver owns_pool event key expected encoded)
            t
    unfolding insert
    append_body-Runs t h =
        let row : Row B = row_of same codec driver owns_pool event key encoded in
        let found : Option ℕ → Comp (State B D) Position =
          after_insert same codec driver owns_pool event key encoded in
        let Q : Position → State B D → Type 0 =
          λ p u. Accepted p u × (s.next_position ≤ u.next_position) in
        bind-Runs (NotBack s) (Checked expected) Q
          (check_expected same codec driver owns_pool expected)
          (λ _. statement driver (insert row) >>= found) t (check_expected-Runs expected t h)
          (λ _ u k.
            bind-Runs (NotBack s) Tried Q (statement driver (insert row)) found u
              (statement-Runs Tried driver (insert row) s u k.0 (λ v l.
                with_rows-Runs Tried (λ rs. inserted (find_optional key rs) row rs) s v l
                  (λ rs e. inserted-Runs rs (find_optional key rs) v refl e (k.1 rs e) l)))
              (λ c v l.
                post-Runs (NotBack s) Accepted Q (found c v).0 (found c v).1
                  (after_insert-Runs c v l) (λ p w a. (a, verdict-next a.rows p w a.outcome))))

    verdict-still :
        (rs : List (Row B)) (p : Position) (t : State B D) (d : D)
        → Inserted rs p t ⊎ Found rs p t
        → Inserted rs p (record t { driver = d }) ⊎ Found rs p (record t { driver = d })
    verdict-still rs p t d (inl i) =
        inl (record { fresh = i.fresh; position = i.position; rows = i.rows; next = i.next })
    verdict-still rs p t d (inr f) = inr (record {
      row = f.row;
      found = f.found;
      identical = f.identical;
      position = f.position;
      rows = f.rows;
      next = f.next;
    })

    Accepted-OfTables : OfTables Accepted
    Accepted-OfTables = record {
      still = λ p t d a. record {
        rows = a.rows;
        before = a.before;
        fits = a.fits;
        version = a.version;
        outcome = verdict-still a.rows p t d a.outcome;
      };
    }

  -- An append of an encoded event, whatever the driver does and wherever it fails: if it returns, the
  -- table existed, its last position is the expected one, if one is given, and either no row had the
  -- key and the table has got one more row, with the event and the position that is returned, or a row
  -- with the key and the same event existed, its position is returned and the table is the same. If it
  -- raises, the exception is a StoreError or no subclass of Exception, and either the tables are as
  -- before or they are as after a return.
  pub append_encoded-Accepted :
      (event : Event) (key : Option String) (expected : Option (Option ℕ)) (encoded : B)
      (s : State B D)
      → Runs
          (Accepted event key expected encoded s)
          (Raises s (Accepted event key expected encoded s))
          (append_encoded same codec driver owns_pool event key expected encoded)
          s
  unfolding append_encoded
  append_encoded-Accepted event key expected encoded s =
      let body : Comp (State B D) Position =
        append_body same codec driver owns_pool event key expected encoded in
      let pooled : Comp (State B D) (Unit {0}) = require_pool same codec driver owns_pool in
      bind-Runs (Raises s (Accepted event key expected encoded s)) (λ _ t. SameTables s t)
        (Accepted event key expected encoded s) pooled (λ _ t. guarded (transaction driver body t))
        s
        (Reports-Runs (λ _ t. SameTables s t) (Accepted event key expected encoded s) s pooled s
          (require_pool-Runs same codec driver owns_pool s))
        (λ _ t h.
          transaction-Runs (Accepted event key expected encoded s)
            (Accepted-OfTables event key expected encoded s) driver s body t h
            (append_body-Runs event key expected encoded s))
