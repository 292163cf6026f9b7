-- ===== src/FilePersistence/Tests.antt =====
-- Runs of a small log that rotates, and its theorems at concrete inputs.
use eventful.Base.{false, ℕ, Option, none, some, [], ◌∷◌, ◌≡◌, refl, arith}
use eventful.Event.{Event, Value, nat, end, new_event}
use eventful.Exceptions.{ok, err, store_error}
use eventful.FilePersistence.{
  Line, value, malformed, unread, FilePersistence, all_lines, rotate, append, replay, close,
}
use eventful.FilePersistence.Record.{document}
use eventful.Json.{canonical, restored}
use eventful.FilePersistence.Rotation.{all_lines-rotate}
use eventful.FilePersistence.Log.{valid, drop, readable, stream_end, played, replay_lem}
use eventful.FilePersistence.Append.{Appended, append-Appended}

-- Each record has four bytes and a line end.
abbrev four_bytes : Value → Option ℕ
four_bytes v = some 4

abbrev event_of : ℕ → Event
event_of n = new_event "tick" (nat n) end []

abbrev line_of : ℕ → Line
line_of n = record {
  content = value (canonical (document (event_of n)));
  size = 5;
  open_end = none;
}

abbrev garbage : Line
garbage = record { content = malformed; size = 7; open_end = none }

-- One backup with one event, and one event after a malformed line in the file; a further event
-- reaches the limit.
abbrev small_log : FilePersistence
small_log = record {
  max_size = 15;
  backup_count = 1;
  file = some (garbage ∷ line_of 2 ∷ []);
  backups = λ i. some (line_of 1 ∷ []);
  stream_open = false;
  current_size = 0;
  closed = false;
}

closed_run : (append four_bytes (some (event_of 3)) (close small_log)).0 ≡ err store_error
unfolding append close
closed_run = refl

all_lines-rotate_example : line_of 1 ∷ all_lines (rotate small_log) ≡ all_lines small_log
all_lines-rotate_example = all_lines-rotate small_log (omega arith)

-- The stream raises at the second line of the file.
abbrev broken_log : FilePersistence
broken_log = record small_log {
  file = some (line_of 2 ∷ record { content = unread; size = 9; open_end = none } ∷ []);
}

broken_run :
    (replay 0 3 broken_log
      ≡ ok (record {
        events = restored (event_of 1) ∷ restored (event_of 2) ∷ [];
        end = err store_error;
      }))
    × (replay 0 2 broken_log
        ≡ ok (record { events = restored (event_of 1) ∷ restored (event_of 2) ∷ []; end = ok tt }))
unfolding replay new_event eventful.FilePersistence.Record.decode canonical document
broken_run = (refl, refl)

-- The last record has no line end: the next one is glued to it, and both are lost.
abbrev torn_log : FilePersistence
torn_log = record small_log {
  file = some (
      record {
        content = value (canonical (document (event_of 2)));
        size = 4;
        open_end = some (λ v. malformed);
      }
      ∷ []);
  max_size = 100;
}

torn_run :
    replay 0 5 (append four_bytes (some (event_of 3)) torn_log).1
    ≡ ok (record { events = restored (event_of 1) ∷ []; end = ok tt })
unfolding replay append new_event eventful.FilePersistence.Record.decode canonical document
torn_run = refl

replay_lem_example :
    replay 1 5 small_log
    ≡ ok (
        played 5
          (valid (drop 1 (readable (all_lines small_log))))
          (stream_end (all_lines small_log)))
replay_lem_example = replay_lem 1 5 small_log (omega arith) refl

small_log_read : stream_end (all_lines small_log) ≡ ok tt
unfolding all_lines stream_end
small_log_read = refl

append-Appended_example :
    Appended four_bytes (event_of 3) 4 small_log (append four_bytes (some (event_of 3)) small_log)
append-Appended_example =
    append-Appended four_bytes (event_of 3) 4 small_log
      (record {
        counted = λ y. absurd (ground (arith, y));
        has_size = omega arith;
        has_backup = omega arith;
        ended = refl;
      })
      refl small_log_read refl
