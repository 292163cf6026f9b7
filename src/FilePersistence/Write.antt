-- ===== src/FilePersistence/Write.antt =====
-- What writing a line does to the log, rotation included.
use mathlib.Core.List.{append_assoc}
use eventful.Base.{
  true, false, ℕ, ◌+◌, ◌<◌, Option, none, some, List, if◌then◌else◌, [], ◌∷◌, ◌++◌, ◌≡◌, refl, sym,
  ◌∙◌, subst, ap, arith, leb, Bool-cases, inl, inr,
}
use eventful.Event.{Value}
use eventful.FilePersistence.{
  Line, Content, written_line, after_line, add_line, FilePersistence, lines_of, total_size, rotate,
  open_for_append, write, all_lines,
}
use eventful.FilePersistence.Rotation.{all_lines-rotate}

-- The last line, if there is one, ends in a line end.
abbrev pub IsEnded : List Line → Type 0
IsEnded [] = Unit
IsEnded (l ∷ []) = l.open_end ≡ none
IsEnded (l ∷ m ∷ ls) = IsEnded (m ∷ ls)

-- The counter is the size of the file while the stream is open, both limits are positive, and the file
-- does not end within a line.
pub record IsSized (s : FilePersistence) : Type 0 where
  pub counted : s.stream_open ≡ true → s.current_size ≡ total_size (lines_of s.file)
  pub has_size : 0 < s.max_size
  pub has_backup : 0 < s.backup_count
  pub ended : IsEnded (lines_of s.file)

after_line_ended :
    (end : Option (Value → Content)) (l : Line) (v : Value) (size : ℕ)
    → end ≡ none
    → after_line end l v size ≡ l ∷ written_line v size ∷ []
after_line_ended none l v size e = refl
after_line_ended (some f) l v size e = absurd cc

-- After a line end, a record comes to stand in a line of its own.
add_line-append :
    (v : Value) (size : ℕ) (ls : List Line)
    → IsEnded ls
    → add_line v size ls ≡ ls ++ written_line v size ∷ []
unfolding add_line
add_line-append v size [] e = refl
add_line-append v size (l ∷ []) e = after_line_ended l.open_end l v size e
add_line-append v size (l ∷ m ∷ ls) e = ap (◌∷◌ l) (add_line-append v size (m ∷ ls) e)

snoc-IsEnded : (ls : List Line) (l : Line) → l.open_end ≡ none → IsEnded (ls ++ l ∷ [])
snoc-IsEnded [] l e = e
snoc-IsEnded (k ∷ []) l e = e
snoc-IsEnded (k ∷ m ∷ ls) l e = snoc-IsEnded (m ∷ ls) l e

total_size-append : (xs ys : List Line) → total_size (xs ++ ys) ≡ total_size xs + total_size ys
unfolding total_size
total_size-append [] ys = omega arith
total_size-append (x ∷ xs) ys = omega (arith, total_size-append xs ys)

opened_already : (s : FilePersistence) → s.stream_open ≡ true → open_for_append s ≡ s
unfolding open_for_append
opened_already s y = ground arith

opened_now :
    (s : FilePersistence)
    → s.stream_open ≡ false
    → open_for_append s ≡ record s {
      stream_open = true;
      file = some (lines_of s.file);
      current_size = total_size (lines_of s.file);
    }
unfolding open_for_append
opened_now s n = ground arith

-- The store with its stream opened: the same log, with the counter at the size of the file.
record Opened (s o : FilePersistence) : Type 0 where
  closed : o.closed ≡ s.closed
  max_size : o.max_size ≡ s.max_size
  backup_count : o.backup_count ≡ s.backup_count
  lines : all_lines o ≡ all_lines s
  file_lines : lines_of o.file ≡ lines_of s.file
  size : o.current_size ≡ total_size (lines_of s.file)

open_for_append-Opened : (s : FilePersistence) → IsSized s → Opened s (open_for_append s)
open_for_append-Opened s c = elim (Bool-cases s.stream_open) [
  | inl y ↦ subst (Opened s) (sym (opened_already s y)) (record {
    closed = refl;
    max_size = refl;
    backup_count = refl;
    lines = refl;
    file_lines = refl;
    size = c.counted y;
  })
  | inr n ↦ subst (Opened s) (sym (opened_now s n)) (
      unfold all_lines in
      record {
        closed = refl;
        max_size = refl;
        backup_count = refl;
        lines = refl;
        file_lines = refl;
        size = refl;
      })
]

-- What a write of a line makes of the store.
pub record Written (l : Line) (s t : FilePersistence) : Type 0 where
  pub is_sized : IsSized t
  pub bounded : total_size (lines_of t.file) < s.max_size
  pub lost : List Line
  pub lines : lost ++ all_lines t ≡ all_lines s ++ l ∷ []
  pub kept_all : total_size (lines_of s.file) + l.size < s.max_size → lost ≡ []
  pub closed : t.closed ≡ s.closed

-- The opened store with the line, before a rotation.
abbrev with_line : Line → FilePersistence → FilePersistence
with_line l o = record o {
  file = some (lines_of o.file ++ l ∷ []);
  current_size = o.current_size + l.size;
}

-- The sizes that the store with the line has.
with_line-size :
    (l : Line) (s o : FilePersistence)
    → Opened s o
    → (o.current_size + l.size ≡ total_size (lines_of s.file) + l.size)
      × (total_size (lines_of o.file ++ l ∷ []) ≡ total_size (lines_of s.file) + l.size)
unfolding total_size
with_line-size l s o q = (
  omega (arith, q.size),
  rw q.file_lines (omega (arith, total_size-append (lines_of s.file) (l ∷ []))),
)

all_lines-with_line :
    (l : Line) (o : FilePersistence) → all_lines (with_line l o) ≡ all_lines o ++ l ∷ []
unfolding all_lines
all_lines-with_line l o = sym (append_assoc _ (lines_of o.file) (l ∷ []))

stay :
    (l : Line) (s o : FilePersistence)
    → l.open_end ≡ none
    → IsSized s
    → Opened s o
    → leb o.max_size (o.current_size + l.size) ≡ false
    → Written l s (with_line l o)
stay l s o e c q below =
    let (counter, size) = with_line-size l s o q in
    record {
      is_sized = record {
        counted = λ y. counter ∙ sym size;
        has_size = omega (arith, c.has_size, q.max_size);
        has_backup = omega (arith, c.has_backup, q.backup_count);
        ended = snoc-IsEnded (lines_of o.file) l e;
      };
      bounded = ground (arith, below, counter, size, q.max_size);
      lost = [];
      lines = all_lines-with_line l o ∙ ap (λ x. x ++ l ∷ []) q.lines;
      kept_all = λ fits. refl;
      closed = q.closed;
    }

turn :
    (l : Line) (s o : FilePersistence)
    → l.open_end ≡ none
    → IsSized s
    → Opened s o
    → leb o.max_size (o.current_size + l.size) ≡ true
    → Written l s (rotate (with_line l o))
unfolding rotate total_size
turn l s o e c q full =
    let (counter, size) = with_line-size l s o q in
    let backed : 0 < o.backup_count = omega (arith, c.has_backup, q.backup_count) in
    record {
      is_sized = record {
        counted = λ y. refl;
        has_size = omega (arith, c.has_size, q.max_size);
        has_backup = backed;
        ended = tt;
      };
      bounded = c.has_size;
      lost = lines_of (o.backups o.backup_count);
      lines =
          all_lines-rotate (with_line l o) backed
          ∙ all_lines-with_line l o
          ∙ ap (λ x. x ++ l ∷ []) q.lines;
      kept_all = λ fits. absurd (ground (arith, fits, full, counter, q.max_size));
      closed = q.closed;
    }

-- The store that `write` makes, before a rotation.
added : Value → ℕ → FilePersistence → FilePersistence
added v size o = record o {
  file = some (add_line v size (lines_of o.file));
  current_size = o.current_size + size;
}

turned : FilePersistence → FilePersistence
turned s = if leb s.max_size s.current_size then rotate s else s

write-turned :
    (v : Value) (size : ℕ) (s : FilePersistence)
    → write v size s ≡ turned (added v size (open_for_append s))
unfolding write turned added
write-turned v size s = refl

turned-Written :
    (l : Line) (s o : FilePersistence)
    → l.open_end ≡ none
    → IsSized s
    → Opened s o
    → Written l s (turned (with_line l o))
unfolding turned
turned-Written l s o e c q = elim (Bool-cases (leb o.max_size (o.current_size + l.size))) [
  | inl full ↦ rw full (turn l s o e c q full)
  | inr below ↦ rw below (stay l s o e c q below)
]

-- A write to a file that does not end within a line.
pub write-Written :
    (v : Value) (size : ℕ) (s : FilePersistence)
    → IsSized s
    → Written (written_line v size) s (write v size s)
unfolding added
write-Written v size s c =
    let l = written_line v size in
    let o = open_for_append s in
    let q = open_for_append-Opened s c in
    let at_end : add_line v size (lines_of o.file) ≡ lines_of o.file ++ l ∷ [] =
      add_line-append v size (lines_of o.file) (subst IsEnded (sym q.file_lines) c.ended) in
    let same : write v size s ≡ turned (with_line l o) =
      write-turned v size s
      ∙ ap (λ ls. turned (record (with_line l o) { file = some ls })) at_end in
    subst (Written l s) (sym same) (turned-Written l s o refl c q)
