-- ===== src/FilePersistence/Append.antt =====
-- What an append does to the history that a replay yields.
use eventful.Base.{
  false, ℕ, suc, ◌+◌, ◌≤◌, ◌<◌, Option, some, List, [], ◌∷◌, ◌++◌, ◌≡◌, refl, sym, ◌∙◌, subst, ap,
  arith, length, length-append,
}
use eventful.Event.{Event, Value}
use eventful.Exceptions.{Result, ok}
use eventful.FilePersistence.{
  Line, written_line, Replayed, FilePersistence, lines_of, total_size, write, append, all_lines,
  replay,
}
use eventful.FilePersistence.Record.{document, decode-document}
use eventful.Json.{canonical, restored}
use eventful.FilePersistence.Log.{
  prepend, valid, drop, valid-append, length-valid-le, played, played_all, readable_all, stream_end,
  stream_end_suffix, stream_end_snoc, replay_lem,
}
use eventful.FilePersistence.Write.{IsSized, Written, write-Written}

-- A replay that ends without an exception.
abbrev pub complete : List Event → Replayed
complete es = record { events = es; end = ok tt }

module _ (encoded_size : Value → Option ℕ) where
  append-write :
      (e : Event) (size : ℕ) (s : FilePersistence)
      → s.closed ≡ false
      → encoded_size (document e) ≡ some size
      → append encoded_size (some e) s ≡ (ok tt, write (canonical (document e)) (size + 1) s)
  unfolding append
  append-write e size s open_ encoded = ground (arith, open_, encoded)

  -- What an append makes of a store, where `size` is the length of the encoded event.
  pub record Appended (e : Event) (size : ℕ) (s : FilePersistence)
      (outcome : Result (Unit {0}) × FilePersistence) : Type 0 where
    pub succeeded : outcome.0 ≡ ok tt
    pub is_sized : IsSized outcome.1
    pub all_read : stream_end (all_lines outcome.1) ≡ ok tt
    pub bounded : total_size (lines_of outcome.1.file) < s.max_size
    pub before : List Event
    pub after : List Event
    pub lost : List Event
    pub replayed_before :
        (batch : ℕ) → length (all_lines s) < batch → replay 0 batch s ≡ ok (complete before)
    pub replayed_after :
        (batch : ℕ) → length (all_lines s) < batch → replay 0 batch outcome.1 ≡ ok (complete after)
    pub history : lost ++ after ≡ before ++ restored e ∷ []
    pub kept_all : total_size (lines_of s.file) + (size + 1) < s.max_size → lost ≡ []

  replay_whole :
      (batch : ℕ) (s : FilePersistence)
      → 0 < batch
      → length (all_lines s) ≤ batch
      → s.closed ≡ false
      → stream_end (all_lines s) ≡ ok tt
      → replay 0 batch s ≡ ok (complete (valid (all_lines s)))
  unfolding drop
  replay_whole batch s positive room open_ read =
      let whole = readable_all (all_lines s) read in
      replay_lem 0 batch s positive open_
      ∙ ap (λ ls. ok (played batch (valid ls) (stream_end (all_lines s)))) whole
      ∙ ap (λ end. ok (played batch (valid (all_lines s)) end)) read
      ∙ ap ok (
          played_all batch (valid (all_lines s))
            (omega (arith, room, length-valid-le (all_lines s))))

  Written-length :
      (l : Line) (s t : FilePersistence)
      → Written l s t
      → length (all_lines t) ≤ suc (length (all_lines s))
  Written-length l s t w =
      let e = ap length w.lines in
      omega
        (arith, sym (length-append w.lost (all_lines t)) ∙ e ∙ length-append (all_lines s) (l ∷ []))

  valid_line :
      (e : Event) (size : ℕ)
      → valid (written_line (canonical (document e)) size ∷ []) ≡ restored e ∷ []
  unfolding valid
  valid_line e size = ap (λ o. prepend o []) (decode-document e)

  -- An open store whose lines can all be read and whose file does not end within a line accepts an event
  -- whose document can be encoded, and then still is such a store. The counter stays the size of the
  -- file, and the file stays below the limit. A replay from the start yields the events of before,
  -- less a beginning of them that is lost, then the event; nothing is lost while the file with the
  -- event stays below the limit. The event comes back with the same fields and sorted tags.
  pub append-Appended :
      (e : Event) (size : ℕ) (s : FilePersistence)
      → IsSized s
      → s.closed ≡ false
      → stream_end (all_lines s) ≡ ok tt
      → encoded_size (document e) ≡ some size
      → Appended e size s (append encoded_size (some e) s)
  append-Appended e size s c open_ read encoded =
      let v = canonical (document e) in
      subst (Appended e size s) (sym (append-write e size s open_ encoded))
        (of_written (write v (size + 1) s) (write-Written v (size + 1) s c))
    where
      l : Line
      l = written_line (canonical (document e)) (size + 1)

      read_after : (t : FilePersistence) → Written l s t → stream_end (all_lines t) ≡ ok tt
      read_after t w =
          stream_end_suffix w.lost (all_lines t)
            (ap stream_end w.lines ∙ stream_end_snoc (all_lines s) l read refl)

      of_written : (t : FilePersistence) → Written l s t → Appended e size s (ok tt, t)
      of_written t w = record {
        succeeded = refl;
        is_sized = w.is_sized;
        all_read = read_after t w;
        bounded = w.bounded;
        before = valid (all_lines s);
        after = valid (all_lines t);
        lost = valid w.lost;
        replayed_before = λ batch room.
            replay_whole batch s (omega (arith, room)) (omega (arith, room)) open_ read;
        replayed_after = λ batch room.
            replay_whole batch t (omega (arith, room)) (omega (arith, room, Written-length l s t w))
              (w.closed ∙ open_) (read_after t w);
        history =
            sym (valid-append w.lost (all_lines t))
            ∙ ap valid w.lines
            ∙ valid-append (all_lines s) (l ∷ [])
            ∙ ap (λ x. valid (all_lines s) ++ x) (valid_line e (size + 1));
        kept_all = λ fits. unfold valid in ap valid (w.kept_all fits);
      }
