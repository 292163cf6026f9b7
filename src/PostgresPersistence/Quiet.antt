-- ===== src/PostgresPersistence/Quiet.antt =====
-- Appends to src/eventful/persistence/postgres_persistence.py when no step of the driver raises.
use eventful.Base.{
  Bool, true, false, ℕ, String, Option, none, some, some-injective, List, ◌≡◌, refl, sym, subst, ap,
  arith, ==_refl, if◌then◌else◌,
}
use eventful.Codec.{Codec}
use eventful.Event.{Event}
use eventful.Exceptions.{Exc, Result, ok, err, store_error, optimistic_concurrency_error}
use eventful.Position.{Position, decimal}
use eventful.Runtime.{Comp, pure, raise, ◌>>=◌}
use eventful.PostgresPersistence.{
  State, Driver, on_driver, statement, with_rows, on_rows, insert, inserted, guarded, transaction,
  Commit, done, refused, cut_off, begun, ended, committed, replaced, acquired,
}
use eventful.PostgresPersistence.Table.{Row, max_position, find_optional}
use eventful.PostgresPersistence.Operations.{
  require_pool, open_, ensure_not_closed, open_missing, created, check_expected, check_position,
  same_position, after_insert, row_of, append_body, append_encoded,
}
use eventful.PostgresPersistence.Rows.{Ends, Runs, bind-Runs, if-Runs}
use eventful.PostgresPersistence.Appends.{Fits}

-- No step raises.
pub record IsQuiet {D : Type 0} (driver : Driver D) : Type 0 where
  pub create_pool : (d : D) → (driver.create_pool d).0 ≡ ok tt
  pub acquire_connection : (d : D) → (driver.acquire_connection d).0 ≡ ok tt
  pub begin : (d : D) → (driver.begin d).0 ≡ ok tt
  pub send : (d : D) → (driver.send d).0 ≡ ok tt
  pub commit : (d : D) → (driver.commit d).0 ≡ done
  pub release_connection : (d : D) → (driver.release_connection d).0 ≡ ok tt

same_position_self : (p : Option ℕ) → same_position p p ≡ true
unfolding same_position
same_position_self none = refl
same_position_self (some n) = ==_refl n

module _ {B D : Type 0} (same : B → B → Bool) (codec : Codec B) (driver : Driver D)
    (owns_pool : Bool) (quiet : IsQuiet driver) (rs : List (Row B)) (next : ℕ) where
  -- An open store on this table.
  record IsOpen (t : State B D) : Type 0 where
    opened : t.closed ≡ false
    rows : t.rows ≡ some rs
    position : t.next_position ≡ next

  abbrev Never : Exc → State B D → Type 0
  Never e t = ⊥

  abbrev Opened : Unit {0} → State B D → Type 0
  Opened _ t = IsOpen t

  driven-Ends :
      (r : Result (Unit {0})) (d : D) (t : State B D)
      → r ≡ ok tt
      → IsOpen t
      → Ends Opened Never r (record t { driver = d })
  driven-Ends (ok _) d t e h = record { opened = h.opened; rows = h.rows; position = h.position }
  driven-Ends (err x) d t e h = absurd cc

  statement-Runs :
      {A : Type 0} (Q : A → State B D → Type 0) (m : Comp (State B D) A) (t : State B D)
      → IsOpen t
      → ((u : State B D) → IsOpen u → Runs Q Never m u)
      → Runs Q Never (statement driver m) t
  statement-Runs Q m t h k =
      bind-Runs Never Opened Q (on_driver driver.send) (λ _. m) t
        (driven-Ends (driver.send t.driver).0 (driver.send t.driver).1 t (quiet.send t.driver) h)
        (λ _ u. k u)

  on_rows-Runs :
      {A : Type 0} (Q : A → State B D → Type 0) (f : List (Row B) → Comp (State B D) A)
      (t : State B D) (rows : Option (List (Row B)))
      → rows ≡ some rs
      → Runs Q Never (f rs) t
      → Runs Q Never (on_rows rows f) t
  on_rows-Runs Q f t none e h = absurd cc
  on_rows-Runs Q f t (some qs) e h =
      subst (λ ps. Runs Q Never (f ps) t) (sym (some-injective qs rs e)) h

  refused-Ends :
      (closed : Bool) (t : State B D)
      → closed ≡ false
      → IsOpen t
      → Ends Opened Never (if closed then err store_error else ok tt) t
  refused-Ends true t e h = absurd cc
  refused-Ends false t e h = h

  created-Ends :
      (r : Result (Unit {0})) (t : State B D)
      → r ≡ ok tt
      → IsOpen t
      → Runs Opened Never (created same codec driver owns_pool r) t
  created-Ends (ok _) t e h = record { opened = h.opened; rows = h.rows; position = h.position }
  created-Ends (err x) t e h = absurd cc

  open_missing-Runs :
      (present : Bool) (t : State B D)
      → IsOpen t
      → Runs Opened Never (open_missing same codec driver owns_pool present) t
  open_missing-Runs true t h = h
  open_missing-Runs false t h =
      created-Ends (driver.create_pool t.driver).0
        (record t { driver = (driver.create_pool t.driver).1 }) (quiet.create_pool t.driver)
        (record { opened = h.opened; rows = h.rows; position = h.position })

  require_pool-Runs :
      (t : State B D) → IsOpen t → Runs Opened Never (require_pool same codec driver owns_pool) t
  unfolding require_pool open_
  require_pool-Runs t h =
      let refuse : Comp (State B D) (Unit {0}) = ensure_not_closed same codec driver owns_pool in
      bind-Runs Never Opened Opened refuse (λ _. open_ same codec driver owns_pool) t
        (refused-Ends t.closed t h.opened h)
        (λ _ u k.
          bind-Runs Never Opened Opened refuse
            (λ _ v. open_missing same codec driver owns_pool v.pool v) u
            (refused-Ends u.closed u k.opened k) (λ _ v l. open_missing-Runs v.pool v l))

  check_expected-Runs :
      (ex : Option (Option ℕ)) (t : State B D)
      → Fits same codec driver owns_pool ex rs
      → IsOpen t
      → Runs Opened Never (check_expected same codec driver owns_pool ex) t
  check_expected-Runs none t f h = h
  check_expected-Runs (some p) t f h =
      let IsLast : Option ℕ → State B D → Type 0 = λ c u. (p ≡ c) × IsOpen u in
      let lock : Comp (State B D) (Unit {0}) = with_rows (λ _. pure tt) in
      let largest : List (Row B) → Comp (State B D) (Option ℕ) = λ qs. pure (max_position qs) in
      let check : Option ℕ → Comp (State B D) (Unit {0}) =
        check_position same codec driver owns_pool p in
      bind-Runs Never Opened Opened (statement driver lock)
        (λ _. statement driver (with_rows largest) >>= check) t
        (statement-Runs Opened lock t h
          (λ u k. on_rows-Runs Opened (λ _. pure tt) u u.rows k.rows k))
        (λ _ u k.
          bind-Runs Never IsLast Opened (statement driver (with_rows largest)) check u
            (statement-Runs IsLast (with_rows largest) u k
              (λ v l. on_rows-Runs IsLast largest v v.rows l.rows (sym f, l)))
            (λ c v l.
              if-Runs Opened Never (same_position c p) (pure tt)
                (raise optimistic_concurrency_error) v (λ _. l.1)
                (λ e.
                  absurd
                    (ground (arith, e, same_position_self p, ap (λ q. same_position q p) l.0)))))

  module _ (event : Event) (key : Option String) (ex : Option (Option ℕ)) (encoded : B)
      (fits : Fits same codec driver owns_pool ex rs) (fresh : find_optional key rs ≡ none) where
    abbrev AtNext : Position → State B D → Type 0
    AtNext p t = p ≡ decimal next

    abbrev Placed : Option ℕ → State B D → Type 0
    Placed p t = p ≡ some next

    inserted-Runs :
        (c : Option (Row B)) (t : State B D)
        → c ≡ none
        → IsOpen t
        → Runs Placed Never (inserted c (row_of same codec driver owns_pool event key encoded) rs) t
    inserted-Runs none t e h = ap some h.position
    inserted-Runs (some r) t e h = absurd cc

    after_insert-Runs :
        (c : Option ℕ) (t : State B D)
        → c ≡ some next
        → Runs AtNext Never (after_insert same codec driver owns_pool event key encoded c) t
    after_insert-Runs none t e = absurd cc
    after_insert-Runs (some p) t e = ap decimal (some-injective p next e)

    append_body-Runs :
        (t : State B D)
        → IsOpen t
        → Runs AtNext Never (append_body same codec driver owns_pool event key ex encoded) t
    unfolding insert
    append_body-Runs t h =
        let row : Row B = row_of same codec driver owns_pool event key encoded in
        let found : Option ℕ → Comp (State B D) Position =
          after_insert same codec driver owns_pool event key encoded in
        let put : List (Row B) → Comp (State B D) (Option ℕ) =
          λ qs. inserted (find_optional key qs) row qs in
        bind-Runs Never Opened AtNext (check_expected same codec driver owns_pool ex)
          (λ _. statement driver (insert row) >>= found) t (check_expected-Runs ex t fits h)
          (λ _ u k.
            bind-Runs Never Placed AtNext (statement driver (insert row)) found u
              (statement-Runs Placed (insert row) u k (λ v l.
                on_rows-Runs Placed put v v.rows l.rows
                  (inserted-Runs (find_optional key rs) v fresh l)))
              (λ c v e. after_insert-Runs c v e))

    committed-Ends :
        (t u : State B D) (p : Position) (c : Commit) (d : D)
        → c ≡ done
        → p ≡ decimal next
        → Ends AtNext Never (committed t p (c, d) u).0 (committed t p (c, d) u).1
    committed-Ends t u p done d e h = h
    committed-Ends t u p (refused x) d e h = absurd cc
    committed-Ends t u p (cut_off x) d e h = absurd cc

    ended-Ends :
        (t : State B D) (r : Result Position) (u : State B D)
        → Ends AtNext Never r u
        → Ends AtNext Never (ended driver t r u).0 (ended driver t r u).1
    ended-Ends t (ok p) u h =
        committed-Ends t u p (driver.commit u.driver).0 (driver.commit u.driver).1
          (quiet.commit u.driver) h
    ended-Ends t (err e) u h = absurd h

    abbrev body : Comp (State B D) Position
    body = append_body same codec driver owns_pool event key ex encoded

    begun-Ends :
        (r : Result (Unit {0})) (t : State B D)
        → r ≡ ok tt
        → IsOpen t
        → Ends AtNext Never (begun driver body r t).0 (begun driver body r t).1
    begun-Ends (ok _) t e h = ended-Ends t (body t).0 (body t).1 (append_body-Runs t h)
    begun-Ends (err x) t e h = absurd cc

    released-Ends :
        (r : Result Position) (q : Result (Unit {0})) (t u : State B D)
        → q ≡ ok tt
        → Ends AtNext Never r t
        → Ends AtNext Never (guarded (replaced r q, u)).0 (guarded (replaced r q, u)).1
    released-Ends (ok p) (ok _) t u e h = h
    released-Ends (err x) (ok _) t u e h = absurd h
    released-Ends r (err x) t u e h = absurd cc

    acquired-Ends :
        (r : Result (Unit {0})) (t : State B D)
        → r ≡ ok tt
        → IsOpen t
        → Ends AtNext Never
            (guarded (acquired driver body r t)).0
            (guarded (acquired driver body r t)).1
    acquired-Ends (ok _) t e h =
        let u : State B D = record t { driver = (driver.begin t.driver).1 } in
        let run : Result Position × State B D = begun driver body (driver.begin t.driver).0 u in
        let (q, d) = driver.release_connection run.1.driver in
        released-Ends run.0 q run.1 (record run.1 { driver = d })
          (quiet.release_connection run.1.driver)
          (begun-Ends (driver.begin t.driver).0 u (quiet.begin t.driver)
            (record { opened = h.opened; rows = h.rows; position = h.position }))
    acquired-Ends (err x) t e h = absurd cc

    append_encoded-Runs :
        (t : State B D)
        → IsOpen t
        → Runs AtNext Never (append_encoded same codec driver owns_pool event key ex encoded) t
    unfolding append_encoded transaction
    append_encoded-Runs t h =
        bind-Runs Never Opened AtNext (require_pool same codec driver owns_pool)
          (λ _ u. guarded (transaction driver body u)) t (require_pool-Runs t h)
          (λ _ u k.
            acquired-Ends (driver.acquire_connection u.driver).0
              (record u { driver = (driver.acquire_connection u.driver).1 })
              (quiet.acquire_connection u.driver)
              (record { opened = k.opened; rows = k.rows; position = k.position }))

    returned : (r : Result Position) (t : State B D) → Ends AtNext Never r t → r ≡ ok (decimal next)
    returned (ok p) t h = ap ok h
    returned (err e) t h = absurd h

    -- An append to an open store whose table exists, when no step of the driver raises: if the expected
    -- position, if one is given, is the last one of the table and no row has the key, it returns the
    -- next position of the sequence.
    pub append_encoded-returns :
        (s : State B D)
        → s.closed ≡ false
        → s.rows ≡ some rs
        → s.next_position ≡ next
        → (append_encoded same codec driver owns_pool event key ex encoded s).0 ≡ ok (decimal next)
    append_encoded-returns s opened table position =
        let run : Result Position × State B D =
          append_encoded same codec driver owns_pool event key ex encoded s in
        returned run.0 run.1
          (append_encoded-Runs s (record { opened = opened; rows = table; position = position }))
