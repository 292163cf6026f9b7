-- ===== src/FilePersistence/Log.antt =====
-- The events that a replay yields.
use eventful.Base.{
  true, false, ℕ, zero, suc, ◌-◌, ◌≤◌, ◌<◌, Option, none, some, List, [], ◌∷◌, ◌++◌, ◌≡◌, refl, sym,
  ◌∙◌, ap, arith, leb, ltb, length, if◌then◌else◌, Bool-cases, inl, inr, ◌⊎◌,
}
use eventful.Event.{Event}
use eventful.Exceptions.{Result, ok, err, store_error}
use eventful.FilePersistence.{
  Line, Content, value, malformed, unread, loaded, FilePersistence, Replayed, all_lines,
  replay_from, replay, visit_record, visit_line,
}
use eventful.FilePersistence.Record.{decode}

abbrev pub prepend : Option Event → List Event → List Event
prepend none es = es
prepend (some e) es = e ∷ es

-- The events of the well-formed lines.
unfoldable pub valid : List Line → List Event
valid [] = []
valid (l ∷ ls) = prepend (decode (loaded l.content)) (valid ls)

unfoldable pub take : {A : Type 0} → ℕ → List A → List A
take zero xs = []
take (suc n) [] = []
take (suc n) (x ∷ xs) = x ∷ take n xs

unfoldable pub drop : {A : Type 0} → ℕ → List A → List A
drop zero xs = xs
drop (suc n) [] = []
drop (suc n) (x ∷ xs) = drop n xs

prepend-append : (o : Option Event) (xs ys : List Event) → prepend o (xs ++ ys) ≡ prepend o xs ++ ys
prepend-append none xs ys = refl
prepend-append (some e) xs ys = refl

pub valid-append : (xs ys : List Line) → valid (xs ++ ys) ≡ valid xs ++ valid ys
unfolding valid
valid-append [] ys = refl
valid-append (x ∷ xs) ys =
    ap (prepend (decode (loaded x.content))) (valid-append xs ys)
    ∙ prepend-append (decode (loaded x.content)) (valid xs) (valid ys)

length-prepend-le :
    (o : Option Event) (xs : List Event) (n : ℕ) → length xs ≤ n → length (prepend o xs) ≤ suc n
length-prepend-le none xs n le = omega (arith, le)
length-prepend-le (some e) xs n le = omega (arith, le)

pub length-valid-le : (ls : List Line) → length (valid ls) ≤ length ls
unfolding valid
length-valid-le [] = omega arith
length-valid-le (l ∷ ls) =
    length-prepend-le (decode (loaded l.content)) (valid ls) (length ls) (length-valid-le ls)

take_nil : {A : Type 0} (n : ℕ) → take {A = A} n [] ≡ []
unfolding take
take_nil zero = refl
take_nil (suc n) = refl

drop_nil : {A : Type 0} (n : ℕ) → drop {A = A} n [] ≡ []
unfolding drop
drop_nil zero = refl
drop_nil (suc n) = refl

pub take_all : {A : Type 0} (n : ℕ) (xs : List A) → length xs ≤ n → take n xs ≡ xs
unfolding take
take_all zero [] le = refl
take_all zero (x ∷ xs) le = absurd (omega (arith, le))
take_all (suc n) [] le = refl
take_all (suc n) (x ∷ xs) le = ap (◌∷◌ x) (take_all n xs (omega (arith, le)))

-- The lines that the stream gives before it raises, if it does.
abbrev until : Content → Line → List Line → List Line
until unread l ls = []
until content l ls = l ∷ ls

unfoldable pub readable : List Line → List Line
readable [] = []
readable (l ∷ ls) = until l.content l (readable ls)

abbrev end_at : Content → Result (Unit {0}) → Result (Unit {0})
end_at unread e = err store_error
end_at content e = e

-- How a reading of all lines ends.
unfoldable pub stream_end : List Line → Result (Unit {0})
stream_end [] = ok tt
stream_end (l ∷ ls) = end_at l.content (stream_end ls)

-- The first events, up to the batch, and the end of the stream unless the batch is full before.
abbrev pub played : ℕ → List Event → Result (Unit {0}) → Replayed
played batch es end = record {
  events = take batch es;
  end = if leb batch (length es) then ok tt else end;
}

played_nil :
    (n : ℕ) (end : Result (Unit {0})) → 0 < n → played n [] end ≡ record { events = []; end = end }
played_nil n end positive =
    let room : leb n 0 ≡ false = ground (arith, positive) in
    ap (λ xs. record { events = xs; end = if leb n 0 then ok tt else end }) (take_nil n)
    ∙ rw room refl

played_cons :
    (n : ℕ) (x : Event) (xs : List Event) (end : Result (Unit {0}))
    → played (suc n) (x ∷ xs) end
      ≡ record { events = x ∷ (played n xs end).events; end = (played n xs end).end }
unfolding take
played_cons n x xs end =
    let same : leb (suc n) (length (x ∷ xs)) ≡ leb n (length xs) = ground arith in
    ap (λ b. record { events = x ∷ take n xs; end = if b then ok tt else end }) same

played_full :
    (x : Event) (xs : List Event) (end : Result (Unit {0}))
    → played 1 (x ∷ xs) end ≡ record { events = x ∷ []; end = ok tt }
unfolding take
played_full x xs end =
    let full : leb 1 (length (x ∷ xs)) ≡ true = ground arith in
    ap (λ b. record { events = x ∷ []; end = if b then ok tt else end }) full

visit_record_lem :
    (o : Option Event) (batch yielded : ℕ) (skipped rest : Replayed) (xs : List Event)
    (end : Result (Unit {0}))
    → yielded < batch
    → skipped ≡ played (batch - yielded) xs end
    → (suc yielded < batch → rest ≡ played (batch - suc yielded) xs end)
    → visit_record o batch yielded skipped rest ≡ played (batch - yielded) (prepend o xs) end
visit_record_lem none batch yielded skipped rest xs end more same later = same
visit_record_lem (some e) batch yielded skipped rest xs end more same later =
    by_room (Bool-cases (leb batch (suc yielded))) ∙ ap (λ n. played n (e ∷ xs) end) (sym one_more)
  where
    one_more : batch - yielded ≡ suc (batch - suc yielded)
    one_more = omega (arith, more)

    by_room :
        (leb batch (suc yielded) ≡ true) ⊎ (leb batch (suc yielded) ≡ false)
        → visit_record (some e) batch yielded skipped rest
          ≡ played (suc (batch - suc yielded)) (e ∷ xs) end
    by_room (inl full) =
        let none_left : suc (batch - suc yielded) ≡ 1 = ground (arith, full) in
        rw full (sym (ap (λ n. played n (e ∷ xs) end) none_left ∙ played_full e xs end))
    by_room (inr room) = rw room (
        ap (λ (r : Replayed). record { events = e ∷ r.events; end = r.end })
          (later (ground (arith, room)))
        ∙ sym (played_cons (batch - suc yielded) e xs end))

pub played_all :
    (n : ℕ) (xs : List Event)
    → length xs ≤ n
    → played n xs (ok tt) ≡ record { events = xs; end = ok tt }
played_all n xs room = elim (Bool-cases (leb n (length xs))) [
  | inl full ↦ rw full (ap (λ es. record { events = es; end = ok tt }) (take_all n xs room))
  | inr left ↦ rw left (ap (λ es. record { events = es; end = ok tt }) (take_all n xs room))
]

-- The end of a stream, line by line.
end_at_ok :
    (c : Content) (l : Line) (ls : List Line) (e : Result (Unit {0}))
    → end_at c e ≡ ok tt
    → (until c l ls ≡ l ∷ ls) × (e ≡ ok tt)
end_at_ok (value v) l ls e h = (refl, h)
end_at_ok malformed l ls e h = (refl, h)
end_at_ok unread l ls e h = absurd cc

pub readable_all : (ls : List Line) → stream_end ls ≡ ok tt → readable ls ≡ ls
unfolding stream_end readable
readable_all [] h = refl
readable_all (l ∷ ls) h =
    let (first, others) = end_at_ok l.content l (readable ls) (stream_end ls) h in
    first ∙ ap (◌∷◌ l) (readable_all ls others)

pub stream_end_suffix : (xs ys : List Line) → stream_end (xs ++ ys) ≡ ok tt → stream_end ys ≡ ok tt
unfolding stream_end
stream_end_suffix [] ys h = h
stream_end_suffix (x ∷ xs) ys h =
    stream_end_suffix xs ys (end_at_ok x.content x [] (stream_end (xs ++ ys)) h).1

pub stream_end_snoc :
    (xs : List Line) (l : Line)
    → stream_end xs ≡ ok tt
    → end_at l.content (ok tt) ≡ ok tt
    → stream_end (xs ++ l ∷ []) ≡ ok tt
unfolding stream_end
stream_end_snoc [] l h k = k
stream_end_snoc (x ∷ xs) l h k =
    let others = (end_at_ok x.content x [] (stream_end xs) h).1 in
    ap (end_at x.content) (stream_end_snoc xs l others k ∙ sym others) ∙ h

-- One round of the loop, by what the rest of the loop does.
module _ (start_id batch offset yielded : ℕ) (l : Line) (ls : List Line) (skipped rest : Replayed)
    (end : Result (Unit {0})) (more : yielded < batch)
    (same : skipped ≡ played (batch - yielded) (valid (drop (start_id - suc offset) ls)) end)
    (later : suc yielded < batch
      → rest ≡ played (batch - suc yielded) (valid (drop (start_id - suc offset) ls)) end) where
  read_line_lem :
      (if ltb offset start_id
        then skipped
        else visit_record (decode (loaded l.content)) batch yielded skipped rest)
      ≡ played (batch - yielded) (valid (drop (start_id - offset) (l ∷ ls))) end
  unfolding valid drop
  read_line_lem = elim (Bool-cases (ltb offset start_id)) [
    | inl before ↦
        let step : start_id - offset ≡ suc (start_id - suc offset) = ground (arith, before) in
        rw (before, step) same
    | inr after ↦
        let now : start_id - offset ≡ 0 = ground (arith, after) in
        let next : start_id - suc offset ≡ 0 = ground (arith, after) in
        rw (after, now)
          (visit_record_lem (decode (loaded l.content)) batch yielded skipped rest (valid ls) end
            more (same ∙ ap (λ n. played (batch - yielded) (valid (drop n ls)) end) next)
            (λ room.
              later room ∙ ap (λ n. played (batch - suc yielded) (valid (drop n ls)) end) next))
  ]

  visit_line_lem :
      (content : Content)
      → l.content ≡ content
      → visit_line content (ltb offset start_id) batch yielded skipped rest
        ≡ played
            (batch - yielded)
            (valid (drop (start_id - offset) (until content l ls)))
            (end_at content end)
  unfolding valid
  visit_line_lem unread e = sym (
      ap (λ xs. played (batch - yielded) (valid xs) (err store_error))
        (drop_nil (start_id - offset))
      ∙ played_nil (batch - yielded) (err store_error) (omega (arith, more)))
  visit_line_lem (value v) e =
      ap
        (λ c.
          if ltb offset start_id
          then skipped
          else visit_record (decode (loaded c)) batch yielded skipped rest)
        (sym e)
      ∙ read_line_lem
  visit_line_lem malformed e =
      ap
        (λ c.
          if ltb offset start_id
          then skipped
          else visit_record (decode (loaded c)) batch yielded skipped rest)
        (sym e)
      ∙ read_line_lem

-- The loop from any of its states.
replay_from_lem :
    (start_id batch offset yielded : ℕ) (ls : List Line)
    → yielded < batch
    → replay_from start_id batch offset yielded ls
      ≡ played (batch - yielded) (valid (drop (start_id - offset) (readable ls))) (stream_end ls)
unfolding replay_from valid readable stream_end
replay_from_lem start_id batch offset yielded [] more = sym (
    ap (λ x. played (batch - yielded) (valid x) (ok tt)) (drop_nil (start_id - offset))
    ∙ played_nil (batch - yielded) (ok tt) (omega (arith, more)))
replay_from_lem start_id batch offset yielded (l ∷ ls) more =
    visit_line_lem start_id batch offset yielded l (readable ls)
      (replay_from start_id batch (suc offset) yielded ls)
      (replay_from start_id batch (suc offset) (suc yielded) ls) (stream_end ls) more
      (replay_from_lem start_id batch (suc offset) yielded ls more)
      (λ room. replay_from_lem start_id batch (suc offset) (suc yielded) ls room) l.content refl

-- An open store replays the events of the well-formed lines from the offset on, at most `batch` of
-- them, which is positive, among the lines before the first one that the stream cannot read, if there
-- is one. The iterator ends with a StoreError if there is one and the batch is not full before it, and
-- without an exception otherwise.
pub replay_lem :
    (start_id batch : ℕ) (s : FilePersistence)
    → 0 < batch
    → s.closed ≡ false
    → replay start_id batch s
      ≡ ok
          (played batch (valid (drop start_id (readable (all_lines s)))) (stream_end (all_lines s)))
unfolding replay
replay_lem start_id batch s positive open_ =
    let some_batch : leb batch 0 ≡ false = ground (arith, positive) in
    let ls = readable (all_lines s) in
    simp (some_batch, open_)
      (ap ok (
        replay_from_lem start_id batch 0 0 (all_lines s) positive
        ∙ ap (λ n. played n (valid (drop (start_id - 0) ls)) (stream_end (all_lines s)))
            (omega arith)
        ∙ ap (λ n. played batch (valid (drop n ls)) (stream_end (all_lines s))) (omega arith)))
