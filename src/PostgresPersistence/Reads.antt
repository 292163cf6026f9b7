-- ===== src/PostgresPersistence/Reads.antt =====
-- What a read of src/eventful/persistence/postgres_persistence.py yields, whatever the driver does.
use eventful.Base.{
  Bool, ℕ, Option, some, some-injective, List, [], ◌∷◌, ◌++◌, map, ◌≡◌, refl, sym, subst, ◌∙◌, ap,
  arith, keep_if,
}
use eventful.Event.{Event}
use eventful.Exceptions.{Exc, Result, ok, err}
use eventful.Position.{Position}
use eventful.Runtime.{Comp, pure}
use eventful.Codec.{Codec}
use eventful.PostgresPersistence.{State, Driver, with_rows, replaced, as_store_error}
use eventful.PostgresPersistence.Table.{Row, select_after}
use eventful.PostgresPersistence.Log.{IsAscending, is_after, select_after_lem}
use eventful.PostgresPersistence.Operations.{
  Stream, parse_read_position, require_pool, decode_row, yields, stream, fetch, close_stream,
  commit_result, reported, release_stream, streamed, read_begun, read_acquired, read_required,
  read_parsed, read,
}
use eventful.PostgresPersistence.Rows.{
  Ends, Runs, SameTables, NotBack, statement-Runs, with_rows-Runs, Reports,
}
use eventful.PostgresPersistence.Pool.{require_pool-Runs}

module _ {B D : Type 0} (same : B → B → Bool) (codec : Codec B) (driver : Driver D)
    (owns_pool : Bool) where
  abbrev pub decoded : List (Row B) → List (Result Event)
  decoded = map (decode_row same codec driver owns_pool)

  replaced_ok : (r q : Result (Unit {0})) (u : Unit {0}) → replaced r q ≡ ok u → r ≡ ok tt
  replaced_ok (ok _) (ok _) u h = refl
  replaced_ok (err e) (ok _) u h = absurd cc
  replaced_ok r (err e) u h = absurd cc

  reported_ok :
      (r : Result (Unit {0})) (u : Unit {0})
      → reported same codec driver owns_pool r ≡ ok u
      → r ≡ ok tt
  reported_ok (ok _) u h = refl
  reported_ok (err e) u h = absurd cc

  -- The events of the first rows; of all rows, if the iterator has ended without an exception.
  pub record Yielded (rows : List (Row B)) (st : Stream) : Type 0 where
    pub rest : List (Result Event)
    pub events : map ok st.events ++ rest ≡ decoded rows
    pub complete : (u : Unit {0}) → st.end ≡ ok u → rest ≡ []

  yields-Yielded :
      (r : Row B) (rs : List (Row B)) (d : Result Event) (st : Stream)
      → decode_row same codec driver owns_pool r ≡ d
      → Yielded rs st
      → Yielded (r ∷ rs) (yields same codec driver owns_pool d st)
  yields-Yielded r rs (err e) st h y = record {
    rest = decoded (r ∷ rs);
    events = refl;
    complete = λ u k. ground (arith, k);
  }
  yields-Yielded r rs (ok event) st h y = record {
    rest = y.rest;
    events =
        ap (λ x. x ∷ (map ok st.events ++ y.rest)) (sym h)
        ∙ ap (λ ds. decode_row same codec driver owns_pool r ∷ ds) y.events;
    complete = y.complete;
  }

  stream-Yielded : (rs : List (Row B)) → Yielded rs (stream same codec driver owns_pool rs)
  unfolding stream
  stream-Yielded [] = record { rest = []; events = refl; complete = λ _ _. refl }
  stream-Yielded (r ∷ rs) =
      yields-Yielded r rs (decode_row same codec driver owns_pool r)
        (stream same codec driver owns_pool rs) refl (stream-Yielded rs)

  failed-Yielded :
      (rows : List (Row B)) (e : Exc) → Yielded rows (record { events = []; end = err e })
  failed-Yielded rows e = record {
    rest = decoded rows;
    events = refl;
    complete = λ u k. ground (arith, k);
  }

  -- A later end that returns only if the iterator did.
  ended-Yielded :
      (rows : List (Row B)) (events : List Event) (end later : Result (Unit {0}))
      → Yielded rows (record { events = events; end = end })
      → ((u : Unit {0}) → later ≡ ok u → end ≡ ok tt)
      → Yielded rows (record { events = events; end = later })
  ended-Yielded rows events end later y h = record {
    rest = y.rest;
    events = y.events;
    complete = λ u e. y.complete tt (h u e);
  }

  close_stream-Yielded :
      (rows : List (Row B)) (events : List Event) (end : Result (Unit {0})) (t : State B D)
      → Yielded rows (record { events = events; end = end })
      → Yielded rows (close_stream same codec driver owns_pool events end t).0
  close_stream-Yielded rows events (ok u) t y =
      ended-Yielded rows events (ok u)
        (commit_result same codec driver owns_pool (driver.commit t.driver).0) y (λ _ _. refl)
  close_stream-Yielded rows events (err e) t y =
      ended-Yielded rows events (err e) (replaced (err e) (driver.rollback t.driver).0) y
        (λ u k. replaced_ok (err e) (driver.rollback t.driver).0 u k)

  release_stream-Yielded :
      (rows : List (Row B)) (st : Stream) (t : State B D)
      → Yielded rows st
      → Yielded rows (release_stream same codec driver owns_pool st t).0
  release_stream-Yielded rows st t y =
      let r : Result (Unit {0}) = (driver.release_connection t.driver).0 in
      ended-Yielded rows st.events st.end (reported same codec driver owns_pool (replaced st.end r))
        y (λ u k. replaced_ok st.end r tt (reported_ok (replaced st.end r) u k))

  -- The rows that a read from a position wants of a table.
  abbrev pub wanted : Option ℕ → List (Row B) → List (Row B)
  wanted after rs = keep_if (is_after after) rs

  module _ (after : Option ℕ) (rs : List (Row B)) (ascending : IsAscending rs) (s : State B D)
      (table : s.rows ≡ some rs) where
    abbrev Fetched : List (Row B) → State B D → Type 0
    Fetched rows t = rows ≡ wanted after rs

    fetch-Runs :
        (t : State B D)
        → SameTables s t
        → Runs Fetched (NotBack s) (fetch same codec driver owns_pool after) t
    fetch-Runs t h =
        let query : List (Row B) → Comp (State B D) (List (Row B)) =
          λ qs. pure (select_after after qs) in
        statement-Runs Fetched driver (with_rows query) s t h (λ u k.
          with_rows-Runs Fetched query s u k (λ qs e.
            ap (select_after after) (some-injective qs rs (sym e ∙ table))
            ∙ select_after_lem after rs ascending))

    streamed-Yielded :
        (r : Result (List (Row B))) (t : State B D)
        → Ends Fetched (NotBack s) r t
        → Yielded (wanted after rs) (streamed same codec driver owns_pool r t).0
    streamed-Yielded (ok rows) t h =
        let st : Stream = stream same codec driver owns_pool rows in
        subst (λ qs. Yielded qs (close_stream same codec driver owns_pool st.events st.end t).0) h
          (close_stream-Yielded rows st.events st.end t (stream-Yielded rows))
    streamed-Yielded (err e) t h =
        close_stream-Yielded (wanted after rs) [] (err e) t (failed-Yielded (wanted after rs) e)

    read_begun-Yielded :
        (r : Result (Unit {0})) (t : State B D)
        → SameTables s t
        → Yielded (wanted after rs) (read_begun same codec driver owns_pool after r t).0
    read_begun-Yielded (ok _) t h =
        let run : Result (List (Row B)) × State B D = fetch same codec driver owns_pool after t in
        streamed-Yielded run.0 run.1 (fetch-Runs t h)
    read_begun-Yielded (err e) t h = failed-Yielded (wanted after rs) e

    read_acquired-Yielded :
        (r : Result (Unit {0})) (t : State B D)
        → SameTables s t
        → Yielded (wanted after rs) (read_acquired same codec driver owns_pool after r t).0
    read_acquired-Yielded (err e) t h = failed-Yielded (wanted after rs) (as_store_error e)
    read_acquired-Yielded (ok _) t h =
        let u : State B D = record t { driver = (driver.begin t.driver).1 } in
        let run : Stream × State B D =
          read_begun same codec driver owns_pool after (driver.begin t.driver).0 u in
        release_stream-Yielded (wanted after rs) run.0 run.1 (
          read_begun-Yielded (driver.begin t.driver).0 u
            (record { version = h.version; rows = h.rows; next = h.next }))

    read_required-Yielded :
        (r : Result (Unit {0})) (t : State B D)
        → Ends (λ _ u. SameTables s u) (Reports s) r t
        → Yielded (wanted after rs) (read_required same codec driver owns_pool after r t).0
    read_required-Yielded (ok _) t h =
        read_acquired-Yielded (driver.acquire_connection t.driver).0
          (record t { driver = (driver.acquire_connection t.driver).1 })
          (record { version = h.version; rows = h.rows; next = h.next })
    read_required-Yielded (err e) t h = failed-Yielded (wanted after rs) e

    read_parsed-Yielded :
        Yielded (wanted after rs) (read_parsed same codec driver owns_pool (ok after) s).0
    read_parsed-Yielded =
        let run : Result (Unit {0}) × State B D = require_pool same codec driver owns_pool s in
        read_required-Yielded run.0 run.1 (require_pool-Runs same codec driver owns_pool s)

  -- A read from a position of a log, whatever the driver and the codec do: the events that the iterator
  -- yields are, in order, those of the first rows after the position, and they are those of all rows
  -- after it if the iterator ends without an exception.
  pub read-Yielded :
      (position : Option Position) (after : Option ℕ) (rs : List (Row B)) (s : State B D)
      → parse_read_position position ≡ ok after
      → s.rows ≡ some rs
      → IsAscending rs
      → Yielded (wanted after rs) (read same codec driver owns_pool position s).0
  unfolding read
  read-Yielded position after rs s parsed table ascending =
      subst (λ r. Yielded (wanted after rs) (read_parsed same codec driver owns_pool r s).0)
        (sym parsed) (read_parsed-Yielded after rs ascending s table)
