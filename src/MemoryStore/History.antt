-- ===== src/MemoryStore/History.antt =====
-- What a store yields after appends, and after it is closed.
use mathlib.Core.List.{append-nil, append_assoc}
use eventful.Base.{
  Bool, true, false, ℕ, suc, Option, none, some, List, [], ◌∷◌, ◌++◌, ◌≡◌, refl, sym, ◌∙◌, ap,
  arith, length,
}
use eventful.Event.{Event}
use eventful.Exceptions.{ok, err, store_error}
use eventful.Position.{Position, decimal, natural, negative, no_number}
use eventful.MemoryStore.{Store, parse_position, drop, can_copy_all, append, read, close, enter}

drop-length : {A : Type 0} (xs ys : List A) → drop (length xs) (xs ++ ys) ≡ ys
unfolding drop
drop-length [] ys = refl
drop-length (x ∷ xs) ys = drop-length xs ys

drop_past :
    {A : Type 0} (xs : List A) (y : A) (ys : List A) → drop (suc (length xs)) (xs ++ y ∷ ys) ≡ ys
unfolding drop
drop_past [] y ys = refl
drop_past (x ∷ xs) y ys = drop_past xs y ys

module _ (can_copy : Event → Bool) where
  -- Appends one event after the other.
  unfoldable pub append_all : List Event → Store → Store
  append_all [] s = s
  append_all (e ∷ es) s = append_all es (append can_copy (some e) s).1

  can_copy_all-right :
      (xs ys : List Event)
      → can_copy_all can_copy (xs ++ ys) ≡ true
      → can_copy_all can_copy ys ≡ true
  unfolding can_copy_all
  can_copy_all-right [] ys h = h
  can_copy_all-right (x ∷ xs) ys h = can_copy_all-right xs ys (ground arith)

  append_open :
      (e : Event) (s : Store)
      → s.closed ≡ false
      → can_copy e ≡ true
      → append can_copy (some e) s
        ≡ (ok (decimal (length s.events)), record s { events = s.events ++ e ∷ [] })
  unfolding append
  append_open e s open_ copies = ground arith

  append_all-events :
      (es : List Event) (s : Store)
      → s.closed ≡ false
      → can_copy_all can_copy es ≡ true
      → append_all es s ≡ record s { events = s.events ++ es }
  unfolding append_all can_copy_all
  append_all-events [] s open_ copies =
      ap (λ es. record s { events = es }) (sym (append-nil s.events))
  append_all-events (e ∷ es) s open_ copies =
      ap (λ x. append_all es x.1) (append_open e s open_ (ground arith))
      ∙ append_all-events es (record s { events = s.events ++ e ∷ [] }) open_ (ground arith)
      ∙ ap (λ es. record s { events = es }) (append_assoc s.events (e ∷ []) es)

  read_open :
      (after : Option Position) (start : ℕ) (s : Store)
      → s.closed ≡ false
      → parse_position after ≡ ok start
      → can_copy_all can_copy (drop start s.events) ≡ true
      → read can_copy after s ≡ ok (drop start s.events)
  unfolding read
  read_open after start s open_ parsed copies = rw parsed (simp (open_, copies))

  -- In an open store whose events can be copied, the position that `append` returns is a resume
  -- point: whatever is appended later, reading after it yields the later events, all of them in
  -- order, and reading from the start yields the earlier ones, the event and the later ones.
  pub read-append :
      (e : Event) (es : List Event) (s : Store)
      → s.closed ≡ false
      → can_copy_all can_copy (s.events ++ e ∷ es) ≡ true
      → (p : Position) × ((append can_copy (some e) s).0 ≡ ok p)
        × (read can_copy (some p) (append_all es (append can_copy (some e) s).1) ≡ ok es)
        × (read can_copy none (append_all es (append can_copy (some e) s).1)
            ≡ ok (s.events ++ e ∷ es))
  unfolding can_copy_all parse_position drop append append_all
  read-append e es s open_ copies =
      let right = can_copy_all-right s.events (e ∷ es) copies in
      let one = append_open e s open_ (ground (arith, right)) in
      let later : can_copy_all can_copy es ≡ true = ground (arith, right) in
      let full = record s { events = s.events ++ e ∷ es } in
      let all : append_all es (append can_copy (some e) s).1 ≡ full =
        append_all-events (e ∷ es) s open_ right in
      (
        decimal (length s.events),
        ap (λ x. x.0) one,
        rw all (
            read_open (some (decimal (length s.events))) (suc (length s.events)) full open_ refl
              (rw (drop_past s.events e es) later)
            ∙ ap ok (drop_past s.events e es)),
        rw all (read_open none 0 full open_ refl copies),
      )

  -- A closed store refuses events, reads and entry with StoreError and keeps its state; closing it
  -- again changes nothing.
  pub close_lem :
      (s : Store) (e : Event) (after : Option Position)
      → (append can_copy (some e) (close can_copy s) ≡ (err store_error, close can_copy s))
        × (read can_copy after (close can_copy s) ≡ err store_error)
        × (enter can_copy (close can_copy s) ≡ err store_error)
        × (close can_copy (close can_copy s) ≡ close can_copy s)
  unfolding append read enter close parse_position
  close_lem s e after = (refl, refused after, refl, refl)
    where
      refused : (after : Option Position) → read can_copy after (close can_copy s) ≡ err store_error
      refused none = refl
      refused (some no_number) = refl
      refused (some (negative n canonical)) = refl
      refused (some (natural n true)) = refl
      refused (some (natural n false)) = refl
