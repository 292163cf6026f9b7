-- ===== src/PostgresPersistence/RoundTrip.antt =====
-- Appends and reads of src/eventful/persistence/postgres_persistence.py together.
use eventful.Base.{
  Bool, ℕ, String, Option, none, some, some-injective, List, [], ◌∷◌, ◌++◌, map, ◌≡◌, refl, sym,
  ◌∙◌, ap, ◌⊎◌, inl, inr, arith,
}
use mathlib.Core.List.{append-nil, map-append}
use eventful.Event.{Event}
use eventful.Exceptions.{ok}
use eventful.Position.{Position}
use eventful.Codec.{Codec}
use eventful.PostgresPersistence.{State, Driver}
use eventful.PostgresPersistence.Table.{Row, find_optional}
use eventful.PostgresPersistence.Log.{keep_if-start, str_eq_refl}
use eventful.PostgresPersistence.Operations.{Stream, read, decode_row, parse_read_position}
use eventful.PostgresPersistence.Appends.{Accepted, Inserted, Found}
use eventful.PostgresPersistence.Reads.{Yielded, read-Yielded, decoded, wanted}
use eventful.PostgresPersistence.History.{HasLog, Appends, Appends-Accepted, verdict-HasLog}

module _ {B D : Type 0} where
  module _ (same : B → B → Bool) (codec : Codec B) (driver : Driver D) (owns_pool : Bool)
      (event : Event) (key : Option String) (ex : Option (Option ℕ)) (encoded : B) where
    abbrev appended_row : ℕ → Row B
    appended_row n = record {
      position = n;
      event_type = event.type;
      media_type = codec.media_type;
      encoded_event = encoded;
      idempotency_key = key;
    }

    decode_row-appended :
        (n : ℕ) (back : Event)
        → codec.decode encoded ≡ ok back
        → back.type ≡ event.type
        → decode_row same codec driver owns_pool (appended_row n) ≡ ok back
    decode_row-appended n back h e =
        ground (arith, str_eq_refl codec.media_type, str_eq_refl event.type, h, e)

    verdict-rows :
        (s : State B D) (rs : List (Row B)) (p : Position) (t : State B D)
        → find_optional key rs ≡ none
        → Inserted same codec driver owns_pool event key ex encoded s rs p t
          ⊎ Found same codec driver owns_pool event key ex encoded s rs p t
        → t.rows ≡ some (rs ++ appended_row s.next_position ∷ [])
    verdict-rows s rs p t e (inl i) = i.rows
    verdict-rows s rs p t e (inr f) = ground (arith, sym e ∙ f.found)

    complete-events :
        (rs : List (Row B)) (n : ℕ) (st : Stream) (back : Event)
        → Yielded same codec driver owns_pool
            (wanted same codec driver owns_pool none (rs ++ appended_row n ∷ []))
            st
        → st.end ≡ ok tt
        → codec.decode encoded ≡ ok back
        → back.type ≡ event.type
        → map ok st.events ≡ decoded same codec driver owns_pool rs ++ ok back ∷ []
    complete-events rs n st back y end h e =
        sym (append-nil (map ok st.events))
        ∙ ap (λ ds. map ok st.events ++ ds) (sym (y.complete tt end))
        ∙ y.events
        ∙ ap (decoded same codec driver owns_pool) (keep_if-start (rs ++ appended_row n ∷ []))
        ∙ map-append (decode_row same codec driver owns_pool) rs (appended_row n ∷ [])
        ∙ ap (λ d. decoded same codec driver owns_pool rs ++ d ∷ [])
            (decode_row-appended n back h e)

    -- An append with a new key and then a read from the start, on a log and with a codec that decodes the
    -- bytes to an event of the same type: if the append returns and the iterator ends without an
    -- exception, it has yielded the events of the rows before the append, and then the decoded event.
    pub read-append_encoded :
        (s : State B D) (p : Position) (t : State B D) (rs : List (Row B)) (back : Event)
        → Appends same codec driver owns_pool event key ex encoded s p t
        → s.rows ≡ some rs
        → HasLog s
        → find_optional key rs ≡ none
        → codec.decode encoded ≡ ok back
        → back.type ≡ event.type
        → (read same codec driver owns_pool none t).0.end ≡ ok tt
        → map ok (read same codec driver owns_pool none t).0.events
          ≡ decoded same codec driver owns_pool rs ++ ok back ∷ []
    unfolding parse_read_position
    read-append_encoded s p t rs back h table log fresh law type end =
        let a : Accepted same codec driver owns_pool event key ex encoded s p t =
          Appends-Accepted same codec driver owns_pool event key ex encoded s p t h in
        let same_rows : a.rows ≡ rs = some-injective a.rows rs (sym a.before ∙ table) in
        let all : List (Row B) = a.rows ++ appended_row s.next_position ∷ [] in
        let after : t.rows ≡ some all =
          verdict-rows s a.rows p t (ap (find_optional key) same_rows ∙ fresh) a.outcome in
        let log_after : HasLog t =
          verdict-HasLog same codec driver owns_pool event key ex encoded s a.rows p t a.before
            a.outcome log in
        let y : Yielded same codec driver owns_pool (wanted same codec driver owns_pool none all)
            (read same codec driver owns_pool none t).0 =
          read-Yielded same codec driver owns_pool none none all t refl after
            (log_after.log all after).ascending in
        complete-events a.rows s.next_position (read same codec driver owns_pool none t).0 back y
          end law type
        ∙ ap (λ qs. decoded same codec driver owns_pool qs ++ ok back ∷ []) same_rows
