-- ===== src/FilePersistence.antt =====
-- src/eventful/persistence/file_persistence.py: the log file with its numbered backups. The file
-- system does not fail, but for the reading of a log, and no other process uses the files; the lock
-- makes each operation one step.
pub mod Record
pub mod Rotation
pub mod Log
pub mod Write
pub mod Append
pub mod Tests
use eventful.Base.{
  Bool, true, false, ℕ, zero, suc, ◌+◌, ◌-◌, String, Option, none, some, List, [], ◌∷◌, ◌++◌, ◌==◌,
  leb, ltb, if◌then◌else◌,
}
use eventful.Event.{Event, Value}
use eventful.Exceptions.{Result, ok, err, store_error, value_error}
use eventful.FilePersistence.Record.{document, decode}
use eventful.Json.{canonical}

-- What comes of a line when a log is read: the value that `json.loads` gives, nothing when it raises,
-- or, in place of the line, an OSError or a UnicodeError of the stream, which stands at the first line
-- that the stream does not give: it reads by chunks, and the bytes that are no UTF-8 may follow later in
-- the same chunk.
pub data Content : Type 0 where
  value : Value → Content
  malformed unread : Content

-- A line of a log file, by its content and its bytes with the line end. `open_end` is `none` for a line
-- that ends in a line end. Another one can only be the last of its file: a record that is written
-- comes to stand in the same line, whose content then is what `open_end` gives for the record.
pub record Line : Type 0 where
  pub content : Content
  pub size : ℕ
  pub open_end : Option (Value → Content)

-- The files at `file_path` and at the numbered backup paths, which are different paths; `none` is a
-- file that does not exist.
abbrev pub Backups : Type 0
Backups = ℕ → Option (List Line)

pub record FilePersistence : Type 0 where
  pub max_size : ℕ
  pub backup_count : ℕ
  pub file : Option (List Line)
  pub backups : Backups
  pub stream_open : Bool
  pub current_size : ℕ
  pub closed : Bool

-- `__init__`, over the files that exist; the numbers are integers that are no `bool`.
unfoldable pub new_persistence :
    (max_size backup_count : ℕ) → Option (List Line) → Backups → Result FilePersistence
new_persistence max_size backup_count file backups =
    if leb max_size 0
    then err value_error
    else if leb backup_count 0
    then err value_error
    else ok (record {
      max_size = max_size;
      backup_count = backup_count;
      file = file;
      backups = backups;
      stream_open = false;
      current_size = 0;
      closed = false;
    })

abbrev pub lines_of : Option (List Line) → List Line
lines_of none = []
lines_of (some ls) = ls

-- `stat().st_size`
unfoldable pub total_size : List Line → ℕ
total_size [] = 0
total_size (l ∷ ls) = l.size + total_size ls

abbrev pub at_path : ℕ → Option (List Line) → Backups → Backups
at_path number content b = λ i. if i == number then content else b i

-- `source.replace(target)`, if the source exists
abbrev pub replace : (source target : ℕ) → Backups → Backups
replace source target b = elim (b source) [
  | none ↦ b
  | some ls ↦ at_path source none (at_path target (some ls) b)
]

-- The loop of `_rotate` over `range(number, 0, -1)`.
unfoldable pub shift : (number : ℕ) → Backups → Backups
shift zero b = b
shift (suc n) b = shift n (replace (suc n) (suc (suc n)) b)

-- `_rotate`
unfoldable pub rotate : FilePersistence → FilePersistence
unfolding shift
rotate s =
    let kept = shift (s.backup_count - 1) (at_path s.backup_count none s.backups) in
    record s {
      stream_open = false;
      backups = elim s.file [ none ↦ kept | some ls ↦ at_path 1 (some ls) kept ];
      file = none;
      current_size = 0;
    }

-- `_open_for_append`
unfoldable pub open_for_append : FilePersistence → FilePersistence
unfolding total_size
open_for_append s = if s.stream_open then s else record s {
  stream_open = true;
  file = some (lines_of s.file);
  current_size = total_size (lines_of s.file);
}

-- The line of a record that is written at the beginning of a line.
abbrev pub written_line : Value → ℕ → Line
written_line v size = record { content = value v; size = size; open_end = none }

abbrev pub after_line : Option (Value → Content) → Line → Value → ℕ → List Line
after_line none l v size = l ∷ written_line v size ∷ []
after_line (some glued) l v size =
    record { content = glued v; size = l.size + size; open_end = none } ∷ []

-- `file.write(record + "\n")` at the end of the file
unfoldable pub add_line : Value → ℕ → List Line → List Line
add_line v size [] = written_line v size ∷ []
add_line v size (l ∷ []) = after_line l.open_end l v size
add_line v size (l ∷ m ∷ ls) = l ∷ add_line v size (m ∷ ls)

-- The part of `append` that writes.
unfoldable pub write : Value → ℕ → FilePersistence → FilePersistence
unfolding open_for_append rotate add_line
write v size s =
    let opened = open_for_append s in
    let written = record opened {
      file = some (add_line v size (lines_of opened.file));
      current_size = opened.current_size + size;
    } in
    if leb written.max_size written.current_size then rotate written else written

-- What `json.dumps` and the encoding give for a document: the bytes without the line end, or `none`
-- when one of them raises.
module _ (encoded_size : Value → Option ℕ) where
  -- `append`; an object that is no `Event` is `none`.
  unfoldable pub append : Option Event → FilePersistence → Result (Unit {0}) × FilePersistence
  unfolding write
  append event s = if s.closed then (err store_error, s) else elim event [
    | none ↦ (err store_error, s)
    | some e ↦ elim (encoded_size (document e)) [
      | none ↦ (err store_error, s)
      | some size ↦ (ok tt, write (canonical (document e)) (size + 1) s)
    ]
  ]

-- The lines of the paths of `_paths_oldest_first`.
unfoldable pub backup_lines : (number : ℕ) → Backups → List Line
backup_lines zero b = []
backup_lines (suc n) b = lines_of (b (suc n)) ++ backup_lines n b

unfoldable pub all_lines : FilePersistence → List Line
unfolding backup_lines
all_lines s = backup_lines s.backup_count s.backups ++ lines_of s.file

-- What the iterator of `replay` does: the events that it yields, and how it ends.
pub record Replayed : Type 0 where
  pub events : List Event
  pub end : Result (Unit {0})

-- A line that is not skipped: a malformed record is passed over, and after the last event of the
-- batch the loop returns.
abbrev pub visit_record : Option Event → (batch yielded : ℕ) → (skipped rest : Replayed) → Replayed
visit_record none batch yielded skipped rest = skipped
visit_record (some e) batch yielded skipped rest =
    if leb batch (suc yielded)
    then record { events = e ∷ []; end = ok tt }
    else record { events = e ∷ rest.events; end = rest.end }

abbrev pub loaded : Content → Option Value
loaded (value v) = some v
loaded malformed = none
loaded unread = none

-- One round of the loop; what the stream raises ends it, also at a line that would be skipped.
abbrev pub visit_line :
    Content → (skips : Bool) → (batch yielded : ℕ) → (skipped rest : Replayed) → Replayed
visit_line unread skips batch yielded skipped rest = record { events = []; end = err store_error }
visit_line content skips batch yielded skipped rest =
    if skips then skipped else visit_record (decode (loaded content)) batch yielded skipped rest

-- The loop of `_replay` over the lines: `offset` counts all lines, `yielded` the events. The list
-- has the events in the order of the `yield`s.
unfoldable pub replay_from : (start_id batch offset yielded : ℕ) → List Line → Replayed
replay_from start_id batch offset yielded [] = record { events = []; end = ok tt }
replay_from start_id batch offset yielded (l ∷ ls) =
    let skipped = replay_from start_id batch (suc offset) yielded ls in
    let rest = replay_from start_id batch (suc offset) (suc yielded) ls in
    visit_line l.content (ltb offset start_id) batch yielded skipped rest

-- `replay`, with its iterator run to its end without other operations in between. The arguments are
-- checked at once, and the rest when the iterator runs.
unfoldable pub replay : (start_id batch : ℕ) → FilePersistence → Result Replayed
unfolding all_lines replay_from
replay start_id batch s =
    if leb batch 0
    then err value_error
    else if s.closed
    then ok (record { events = []; end = err store_error })
    else ok (replay_from start_id batch 0 0 (all_lines s))

-- `close`
unfoldable pub close : FilePersistence → FilePersistence
close s = if s.closed then s else record s { closed = true; stream_open = false }
