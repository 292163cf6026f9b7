-- ===== src/PostgresPersistence/Tests.antt =====
-- Runs of the PostgreSQL store with a driver that fails after some steps, and its theorems at concrete
-- inputs.
use eventful.Base.{
  Bool, true, false, ℕ, zero, suc, none, some, some-injective, arith, [], ◌∷◌, ◌++◌, map, ◌≡◌, refl,
  subst, str_eq,
}
use eventful.Event.{Event, Value, nat, end, new_event}
use eventful.Json.{canonical, restored}
use eventful.JsonCodec
use eventful.JsonCodec.{json_codec}
use eventful.JsonCodec.RoundTrip.{decode-encode}
use eventful.JsonCodec.Tests.{keeping as plain_json, keeping-IsJson as plain_json-IsJson}
use eventful.Exceptions.{ok, err, exception, store_error, optimistic_concurrency_error}
use eventful.Position.{natural}
use eventful.Runtime.{Comp}
use eventful.Codec.{Codec}
use eventful.PostgresPersistence.{State, Driver, Commit, done, refused}
use eventful.PostgresPersistence.Table.{Row, find_key, max_position}
use eventful.PostgresPersistence.Log.{IsLog}
use eventful.PostgresPersistence.Operations.{
  append_encoded, append, read, close, parse_read_position, same_position,
}
use eventful.PostgresPersistence.Schema.{migrate}
use eventful.PostgresPersistence.Rows.{Runs, Reports, Raises}
use eventful.PostgresPersistence.Appends.{Accepted, append_encoded-Accepted}
use eventful.PostgresPersistence.Reads.{Yielded, read-Yielded, wanted, decoded}
use eventful.PostgresPersistence.History.{HasLog, append-HasLog}
use eventful.PostgresPersistence.Quiet.{append_encoded-returns}
use eventful.PostgresPersistence.Retry.{append_encoded-again}
use eventful.PostgresPersistence.RoundTrip.{read-append_encoded}
use eventful.PostgresPersistence.Migrations.{Migrated, migrate-Migrated}

-- The connection is lost after so many steps.
abbrev step : Comp ℕ (Unit {0})
step zero = (err (exception "ConnectionDoesNotExistError"), zero)
step (suc n) = (ok tt, n)

abbrev last_step : ℕ → Commit × ℕ
last_step zero = (refused (exception "ConnectionDoesNotExistError"), zero)
last_step (suc n) = (done, n)

abbrev counting : Driver ℕ
counting = record {
  create_pool = step;
  close_pool = step;
  acquire_connection = step;
  release_connection = step;
  begin = step;
  commit = last_step;
  rollback = step;
  send = step;
}

-- The bytes are the event.
abbrev keeping : Codec Event
keeping = record { media_type = "application/json"; encode = λ e. ok e; decode = λ e. ok e }

abbrev same_type : Event → Event → Bool
same_type a b = str_eq a.type b.type

abbrev paid : Event
paid = new_event "order.paid" (nat 3) end []

abbrev shipped : Event
shipped = new_event "order.shipped" (nat 4) end []

abbrev paid_row : Row Event
paid_row = record {
  position = 1;
  event_type = "order.paid";
  media_type = "application/json";
  encoded_event = paid;
  idempotency_key = some "k1";
}

-- A migrated store with one row, with steps left.
abbrev filled : ℕ → State Event ℕ
filled n = record {
  pool = false;
  closed = false;
  version = some (some 1);
  rows = some (paid_row ∷ []);
  next_position = 2;
  driver = n;
}

abbrev bare : State Event ℕ
bare = record {
  pool = false;
  closed = false;
  version = none;
  rows = none;
  next_position = 1;
  driver = 20;
}

wrong_position_run :
    (append same_type keeping counting true
      (some shipped)
      none
      (some (natural 7 true))
      (filled 20)).0
    ≡ err optimistic_concurrency_error
unfolding append new_event same_position
wrong_position_run = refl

right_position_run :
    (append same_type keeping counting true
      (some shipped)
      none
      (some (natural 1 true))
      (filled 20)).0
    ≡ ok (natural 2 true)
unfolding append new_event same_position
right_position_run = refl

-- The connection is lost at the commit.
lost_commit_run :
    (append same_type keeping counting true (some shipped) (some "k2") none (filled 4)).0
    ≡ err store_error
unfolding append new_event
lost_commit_run = refl

lost_commit_rows_run :
    (append same_type keeping counting true (some shipped) (some "k2") none (filled 4)).1.rows
    ≡ some (paid_row ∷ [])
unfolding append new_event
lost_commit_rows_run = refl

-- The connection is lost after the commit: the append raises, and the row is there.
lost_release_run :
    (append same_type keeping counting true (some shipped) (some "k2") none (filled 5)).0
    ≡ err store_error
unfolding append new_event
lost_release_run = refl

lost_release_rows_run :
    (append same_type keeping counting true (some shipped) (some "k2") none (filled 5)).1.rows
    ≡ some (
        paid_row
        ∷ record {
          position = 2;
          event_type = "order.shipped";
          media_type = "application/json";
          encoded_event = shipped;
          idempotency_key = some "k2";
        }
        ∷ [])
unfolding append new_event
lost_release_rows_run = refl

reused_key_run :
    (append same_type keeping counting true (some shipped) (some "k1") none (filled 20)).0
    ≡ err store_error
unfolding append new_event
reused_key_run = refl

closed_run : (close same_type keeping counting true (record bare { pool = true })).1.closed ≡ true
unfolding close
closed_run = refl

filled-HasLog : HasLog (filled 20)
unfolding find_key
filled-HasLog = record {
  log = λ rs h.
      subst (IsLog 2) (some-injective (paid_row ∷ []) rs h)
        (record { ascending = (tt, tt); below = (omega arith, tt); unique = (refl, tt) });
}

append_encoded-Accepted_example :
    Runs
      (Accepted same_type keeping counting true shipped
        (some "k2")
        (some (some 1))
        shipped
        (filled 20))
      (Raises (filled 20) (
        Accepted same_type keeping counting true shipped
          (some "k2")
          (some (some 1))
          shipped
          (filled 20)))
      (append_encoded same_type keeping counting true shipped (some "k2") (some (some 1)) shipped)
      (filled 20)
append_encoded-Accepted_example =
    append_encoded-Accepted same_type keeping counting true shipped (some "k2") (some (some 1))
      shipped (filled 20)

append-HasLog_example :
    HasLog (append same_type keeping counting true (some shipped) (some "k2") none (filled 20)).1
append-HasLog_example =
    append-HasLog same_type keeping counting true (some shipped) (some "k2") none (filled 20)
      filled-HasLog

-- After the insertion has found the key.
abbrev retried : State Event ℕ
retried = record (filled 13) { pool = true; next_position = 3 }

append_encoded-again_example :
    Runs
      (λ q u. (q ≡ natural 1 true) × (u.rows ≡ some (paid_row ∷ [])))
      (Reports retried)
      (append_encoded same_type keeping counting true paid (some "k1") (some (some 1)) paid)
      retried
unfolding append_encoded new_event
append_encoded-again_example =
    append_encoded-again same_type keeping counting true paid "k1" paid none (some (some 1))
      (filled 20) (natural 1 true) retried refl

read-Yielded_example :
    Yielded same_type keeping counting true
      (wanted same_type keeping counting true (some 0) (paid_row ∷ []))
      (read same_type keeping counting true (some (natural 0 true)) (filled 20)).0
unfolding parse_read_position
read-Yielded_example =
    read-Yielded same_type keeping counting true (some (natural 0 true)) (some 0) (paid_row ∷ [])
      (filled 20) refl refl (tt, tt)

-- With the JSON codec, and no row before.
abbrev documents : Codec Value
unfolding json_codec
documents = json_codec plain_json

abbrev migrated : ℕ → State Value ℕ
migrated n = record {
  pool = false;
  closed = false;
  version = some (some 1);
  rows = some [];
  next_position = 1;
  driver = n;
}

migrated-HasLog : HasLog (migrated 20)
migrated-HasLog = record {
  log = λ rs h.
      subst (IsLog 1) (some-injective [] rs h) (record { ascending = tt; below = tt; unique = tt });
}

abbrev always : Value → Value → Bool
always a b = true

abbrev paid_document_row : Row Value
unfolding JsonCodec.document
paid_document_row = record {
  position = 1;
  event_type = "order.paid";
  media_type = "application/json";
  encoded_event = canonical (JsonCodec.document paid);
  idempotency_key = some "k1";
}

abbrev after_paid : State Value ℕ
after_paid = record (migrated 14) {
  pool = true;
  next_position = 2;
  rows = some (paid_document_row ∷ []);
}

read-append_encoded_example :
    map ok (read always documents counting true none after_paid).0.events
    ≡ decoded always documents counting true [] ++ ok (restored paid) ∷ []
unfolding append_encoded read new_event json_codec canonical
read-append_encoded_example =
    read-append_encoded always documents counting true paid (some "k1") none
      (canonical (JsonCodec.document paid)) (migrated 20) (natural 1 true) after_paid []
      (restored paid) refl refl migrated-HasLog refl
      (decode-encode plain_json plain_json-IsJson paid (canonical (JsonCodec.document paid)) refl
        refl)
      refl refl

migrate-Migrated_example :
    Runs
      (Migrated bare)
      (Raises bare (Migrated bare))
      (migrate same_type keeping counting true)
      bare
migrate-Migrated_example = migrate-Migrated bare same_type keeping counting true

-- No step raises.
abbrev quiet_step : Comp ℕ (Unit {0})
quiet_step n = (ok tt, suc n)

abbrev patient : Driver ℕ
patient = record {
  create_pool = quiet_step;
  close_pool = quiet_step;
  acquire_connection = quiet_step;
  release_connection = quiet_step;
  begin = quiet_step;
  commit = λ n. (done, suc n);
  rollback = quiet_step;
  send = quiet_step;
}

append_encoded-returns_example :
    (append_encoded same_type keeping patient true shipped
      (some "k2")
      (some (some 1))
      shipped
      (filled 0)).0
    ≡ ok (natural 2 true)
unfolding find_key max_position
append_encoded-returns_example =
    append_encoded-returns same_type keeping patient true
      (record {
        create_pool = λ _. refl;
        acquire_connection = λ _. refl;
        begin = λ _. refl;
        send = λ _. refl;
        commit = λ _. refl;
        release_connection = λ _. refl;
      })
      (paid_row ∷ []) 2 shipped (some "k2") (some (some 1)) shipped refl refl (filled 0) refl refl
      refl
