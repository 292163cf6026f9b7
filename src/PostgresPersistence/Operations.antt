-- ===== src/PostgresPersistence/Operations.antt =====
-- src/eventful/persistence/postgres_persistence.py: the operations of a store.
use eventful.Base.{
  Bool, true, false, ℕ, String, Option, none, some, List, [], ◌∷◌, ◌==◌, ◌&&◌, str_eq,
  if◌then◌else◌,
}
use eventful.Event.{Event}
use eventful.Exceptions.{
  Result, ok, err, is_exception, store_error, optimistic_concurrency_error, value_error, type_error,
}
use eventful.Position.{Position, natural, negative, no_number, decimal}
use eventful.Runtime.{Comp, pure, raise, ◌>>=◌, ◌>>◌, attempt, gets}
use eventful.Codec.{Codec}
use eventful.PostgresPersistence.{
  State, Driver, Commit, done, refused, cut_off, replaced, on_driver, transaction, statement,
  with_rows, insert, as_store_error, guarded,
}
use eventful.PostgresPersistence.Table.{Row, max_position, find_optional, select_after}

-- `_parse_read_position`, with `none` for -1
unfoldable pub parse_read_position : Option Position → Result (Option ℕ)
parse_read_position none = ok none
parse_read_position (some (natural n canonical)) =
    if canonical then ok (some n) else err store_error
parse_read_position (some (negative n canonical)) = err store_error
parse_read_position (some no_number) = err store_error

-- `_parse_expected_position`; the text of -1 stands for the empty stream.
unfoldable pub parse_expected_position : Option Position → Result (Option (Option ℕ))
unfolding parse_read_position
parse_expected_position none = ok none
parse_expected_position (some (negative n canonical)) =
    if n == 0 && canonical then ok (some none) else err store_error
parse_expected_position (some p) = elim (parse_read_position (some p)) [
  | err e ↦ err e
  | ok n ↦ ok (some n)
]

unfoldable pub same_position : Option ℕ → Option ℕ → Bool
same_position none none = true
same_position none (some n) = false
same_position (some m) none = false
same_position (some m) (some n) = m == n

-- What the iterator of `read` does: the events that it yields, and how it ends.
pub record Stream : Type 0 where
  pub events : List Event
  pub end : Result (Unit {0})

-- The store has its pool from a caller or owns the one that it makes. `same` is `==` on bytes.
module _ {B D : Type 0} (same : B → B → Bool) (codec : Codec B) (driver : Driver D)
    (owns_pool : Bool) where
  -- `_ensure_not_closed`
  abbrev pub ensure_not_closed : Comp (State B D) (Unit {0})
  ensure_not_closed s = (if s.closed then err store_error else ok tt, s)

  -- The creation of the pool, with its `except` clauses.
  abbrev pub created : Result (Unit {0}) → Comp (State B D) (Unit {0})
  created (ok _) s = (ok tt, record s { pool = true })
  created (err e) s = (err (if is_exception e then store_error else e), s)

  abbrev pub open_missing : Bool → Comp (State B D) (Unit {0})
  open_missing true = pure tt
  open_missing false = do outcome ← attempt (on_driver driver.create_pool); created outcome

  -- `open`
  unfoldable pub open_ : Comp (State B D) (Unit {0})
  open_ = do ensure_not_closed; present ← gets (λ s. s.pool); open_missing present

  -- `_require_pool`; after `open` there is a pool.
  unfoldable pub require_pool : Comp (State B D) (Unit {0})
  unfolding open_
  require_pool = do ensure_not_closed; open_

  -- `if current != expected: raise`
  abbrev pub check_position : Option ℕ → Option ℕ → Comp (State B D) (Unit {0})
  check_position expected current =
      if same_position current expected then pure tt else raise optimistic_concurrency_error

  abbrev pub check_expected : Option (Option ℕ) → Comp (State B D) (Unit {0})
  check_expected none = pure tt
  check_expected (some expected) = do
    statement driver (with_rows (λ _. pure tt))
    current ← statement driver (with_rows (λ rs. pure (max_position rs)))
    check_position expected current

  abbrev pub is_same_event : Event → B → Row B → Bool
  is_same_event event encoded r =
      str_eq r.event_type event.type
      && str_eq r.media_type codec.media_type
      && same r.encoded_event encoded

  -- The row that already has the key.
  abbrev pub existing : Event → B → Option (Row B) → Comp (State B D) Position
  existing event encoded none = raise store_error
  existing event encoded (some r) =
      if is_same_event event encoded r then pure (decimal r.position) else raise store_error

  abbrev pub after_insert : Event → Option String → B → Option ℕ → Comp (State B D) Position
  after_insert event key encoded (some p) = pure (decimal p)
  after_insert event key encoded none = do
    row ← statement driver (with_rows (λ rs. pure (find_optional key rs)))
    existing event encoded row

  abbrev pub row_of : Event → Option String → B → Row B
  row_of event key encoded = record {
    position = 0;
    event_type = event.type;
    media_type = codec.media_type;
    encoded_event = encoded;
    idempotency_key = key;
  }

  abbrev pub append_body : Event → Option String → Option (Option ℕ) → B → Comp (State B D) Position
  append_body event key expected encoded = do
    check_expected expected
    row ← statement driver (insert (row_of event key encoded))
    after_insert event key encoded row

  -- From the pool on.
  unfoldable pub append_encoded :
      Event → Option String → Option (Option ℕ) → B → Comp (State B D) Position
  unfolding require_pool transaction insert max_position
  append_encoded event key expected encoded = do
    require_pool
    λ s. guarded (transaction driver (append_body event key expected encoded) s)

  abbrev pub is_empty_key : Option String → Bool
  is_empty_key none = false
  is_empty_key (some key) = str_eq key ""

  abbrev pub prepared : Event → Option Position → Result (Option (Option ℕ) × B)
  prepared event expected_position = elim (parse_expected_position expected_position) [
    | err e ↦ err e
    | ok expected ↦ elim (codec.encode event) [
      | err e ↦ err e
      | ok encoded ↦ ok (expected, encoded)
    ]
  ]

  abbrev pub append_prepared :
      Event → Option String → Result (Option (Option ℕ) × B) → Comp (State B D) Position
  append_prepared event key (err e) = raise e
  append_prepared event key (ok (expected, encoded)) = append_encoded event key expected encoded

  -- `append`; an object that is no `Event` is `none`.
  unfoldable pub append : Option Event → Option String → Option Position → Comp (State B D) Position
  unfolding parse_expected_position append_encoded
  append none key expected_position = raise type_error
  append (some event) key expected_position =
      if str_eq event.type ""
      then raise store_error
      else if is_empty_key key
      then raise value_error
      else append_prepared event key (prepared event expected_position)

  abbrev pub row_event : Row B → Result Event → Result Event
  row_event r (err e) = err e
  row_event r (ok event) = if str_eq event.type r.event_type then ok event else err store_error

  -- One round of the loop of `read`.
  abbrev pub decode_row : Row B → Result Event
  decode_row r =
      if str_eq r.media_type codec.media_type
      then row_event r (codec.decode r.encoded_event)
      else err store_error

  abbrev pub yields : Result Event → Stream → Stream
  yields (err e) rest = record { events = []; end = err e }
  yields (ok event) rest = record { events = event ∷ rest.events; end = rest.end }

  -- The loop over the rows.
  unfoldable pub stream : List (Row B) → Stream
  stream [] = record { events = []; end = ok tt }
  stream (r ∷ rs) = yields (decode_row r) (stream rs)

  -- The `except` clauses, for what ends the iterator.
  abbrev pub reported : Result (Unit {0}) → Result (Unit {0})
  reported (ok _) = ok tt
  reported (err e) = err (as_store_error e)

  abbrev pub fetch : Option ℕ → Comp (State B D) (List (Row B))
  fetch after = statement driver (with_rows (λ rs. pure (select_after after rs)))

  -- The end of the transaction, which has written nothing: a commit, unless the loop raised.
  abbrev pub commit_result : Commit → Result (Unit {0})
  commit_result done = ok tt
  commit_result (refused e) = err e
  commit_result (cut_off e) = err e

  abbrev pub close_stream : List Event → Result (Unit {0}) → State B D → Stream × State B D
  close_stream events (err e) s =
      let (r, s') = on_driver driver.rollback s in
      (record { events = events; end = replaced (err e) r }, s')
  close_stream events (ok _) s =
      let (c, d) = driver.commit s.driver in
      (record { events = events; end = commit_result c }, record s { driver = d })

  abbrev pub streamed : Result (List (Row B)) → State B D → Stream × State B D
  streamed (err e) s = close_stream [] (err e) s
  streamed (ok rows) s = let st = stream rows in close_stream st.events st.end s

  abbrev pub read_begun : Option ℕ → Result (Unit {0}) → State B D → Stream × State B D
  read_begun after (err e) s = (record { events = []; end = err e }, s)
  read_begun after (ok _) s = let (r, s') = fetch after s in streamed r s'

  abbrev pub release_stream : Stream → State B D → Stream × State B D
  release_stream st s =
      let (r, s') = on_driver driver.release_connection s in
      (record { events = st.events; end = reported (replaced st.end r) }, s')

  abbrev pub read_acquired : Option ℕ → Result (Unit {0}) → State B D → Stream × State B D
  read_acquired after (err e) s = (record { events = []; end = reported (err e) }, s)
  read_acquired after (ok _) s =
      let (r, s') = on_driver driver.begin s in
      let (st, u) = read_begun after r s' in release_stream st u

  abbrev pub read_required : Option ℕ → Result (Unit {0}) → State B D → Stream × State B D
  read_required after (err e) s = (record { events = []; end = err e }, s)
  read_required after (ok _) s =
      let (r, s') = on_driver driver.acquire_connection s in read_acquired after r s'

  abbrev pub read_parsed : Result (Option ℕ) → State B D → Stream × State B D
  read_parsed (err e) s = (record { events = []; end = err e }, s)
  read_parsed (ok after) s = let (r, s') = require_pool s in read_required after r s'

  -- `read`, run to its end: the rows of the snapshot, whose batches no failure interrupts.
  unfoldable pub read : Option Position → State B D → Stream × State B D
  unfolding parse_read_position stream select_after require_pool
  read after = read_parsed (parse_read_position after)

  abbrev pub release : Bool → Comp (State B D) (Unit {0})
  release false s = (ok tt, s)
  release true s =
      let (r, s') = on_driver driver.close_pool s in
      (elim r [ ok _ ↦ ok tt | err e ↦ err (if is_exception e then store_error else e) ], s')

  -- `close`
  unfoldable pub close : Comp (State B D) (Unit {0})
  close s =
      if s.closed
      then (ok tt, s)
      else release (s.pool && owns_pool) (record s { closed = true; pool = false })
