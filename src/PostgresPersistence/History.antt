-- ===== src/PostgresPersistence/History.antt =====
-- The log of src/eventful/persistence/postgres_persistence.py after appends.
use eventful.Base.{
  Bool, true, false, ℕ, suc, String, Option, none, some, some-injective, List, [], ◌∷◌, ◌++◌, ◌≡◌,
  refl, sym, subst, ◌∙◌, ◌⊎◌, inl, inr, ◌≤◌, str_eq, if◌then◌else◌,
}
use eventful.Event.{Event}
use eventful.Exceptions.{Result, ok, err, store_error, value_error}
use eventful.Position.{Position}
use eventful.Runtime.{Comp, raise}
use eventful.Codec.{Codec}
use eventful.PostgresPersistence.{State, Driver}
use eventful.PostgresPersistence.Table.{Row}
use eventful.PostgresPersistence.Log.{IsLog, IsLog-append, All-below}
use eventful.PostgresPersistence.Operations.{
  append_encoded, append_prepared, append, prepared, is_empty_key,
}
use eventful.PostgresPersistence.Rows.{Ends, Raises}
use eventful.PostgresPersistence.Appends.{Accepted, Inserted, Found, append_encoded-Accepted}

module _ {B D : Type 0} where
  -- The table of events, if there is one, is a log.
  pub record HasLog (s : State B D) : Type 0 where
    pub log : (rs : List (Row B)) → s.rows ≡ some rs → IsLog s.next_position rs

  later-HasLog :
      (s t : State B D) → t.rows ≡ s.rows → s.next_position ≤ t.next_position → HasLog s → HasLog t
  later-HasLog s t e n h = record {
    log = λ rs k.
        let l : IsLog s.next_position rs = h.log rs (sym e ∙ k) in
        record {
          ascending = l.ascending;
          below = All-below s.next_position t.next_position rs n l.below;
          unique = l.unique;
        };
  }

  module _ (same : B → B → Bool) (codec : Codec B) (driver : Driver D) (owns_pool : Bool) where
    pub verdict-HasLog :
        (event : Event) (key : Option String) (ex : Option (Option ℕ)) (encoded : B) (s : State B D)
        (rs : List (Row B)) (p : Position) (t : State B D)
        → s.rows ≡ some rs
        → Inserted same codec driver owns_pool event key ex encoded s rs p t
          ⊎ Found same codec driver owns_pool event key ex encoded s rs p t
        → HasLog s
        → HasLog t
    verdict-HasLog event key ex encoded s rs p t e (inr f) h =
        later-HasLog s t (f.rows ∙ sym e) f.next h
    verdict-HasLog event key ex encoded s rs p t e (inl i) h = record {
      log = λ qs k.
          let row : Row B = record {
            position = s.next_position;
            event_type = event.type;
            media_type = codec.media_type;
            encoded_event = encoded;
            idempotency_key = key;
          } in
          subst (λ n. IsLog n qs) (sym i.next)
            (subst (IsLog (suc s.next_position))
              (some-injective (rs ++ row ∷ []) qs (sym i.rows ∙ k))
              (IsLog-append s.next_position rs row (h.log rs e) refl i.fresh));
    }

    run-HasLog :
        (event : Event) (key : Option String) (ex : Option (Option ℕ)) (encoded : B) (s : State B D)
        (r : Result Position) (t : State B D)
        → HasLog s
        → Ends
            (Accepted same codec driver owns_pool event key ex encoded s)
            (Raises s (Accepted same codec driver owns_pool event key ex encoded s))
            r
            t
        → HasLog t
    run-HasLog event key ex encoded s (err e) t h (reported, inl u) =
        later-HasLog s t u.rows u.next h
    run-HasLog event key ex encoded s (err e) t h (reported, inr (p, k)) =
        verdict-HasLog event key ex encoded s k.rows p t k.before k.outcome h
    run-HasLog event key ex encoded s (ok p) t h k =
        verdict-HasLog event key ex encoded s k.rows p t k.before k.outcome h

    prepared-HasLog :
        (event : Event) (key : Option String) (r : Result (Option (Option ℕ) × B)) (s : State B D)
        → HasLog s
        → HasLog (append_prepared same codec driver owns_pool event key r s).1
    prepared-HasLog event key (err e) s h = h
    prepared-HasLog event key (ok (ex, encoded)) s h =
        let run : Result Position × State B D =
          append_encoded same codec driver owns_pool event key ex encoded s in
        run-HasLog event key ex encoded s run.0 run.1 h
          (append_encoded-Accepted same codec driver owns_pool event key ex encoded s)

    if-HasLog :
        (b : Bool) (m n : Comp (State B D) Position) (s : State B D)
        → HasLog (m s).1
        → HasLog (n s).1
        → HasLog ((if b then m else n) s).1
    if-HasLog true m n s h k = h
    if-HasLog false m n s h k = k

    -- An append, whether it returns or raises and wherever the driver fails, keeps the table a log: the
    -- positions ascend and stay below the next one of the sequence, and no two rows have the same key.
    pub append-HasLog :
        (event : Option Event) (key : Option String) (expected : Option Position) (s : State B D)
        → HasLog s
        → HasLog (append same codec driver owns_pool event key expected s).1
    unfolding append
    append-HasLog none key expected s h = h
    append-HasLog (some event) key expected s h =
        let r : Result (Option (Option ℕ) × B) =
          prepared same codec driver owns_pool event expected in
        let run : Comp (State B D) Position =
          append_prepared same codec driver owns_pool event key r in
        let keyed : Comp (State B D) Position =
          if is_empty_key same codec driver owns_pool key then raise value_error else run in
        if-HasLog (str_eq event.type "") (raise store_error) keyed s h (
          if-HasLog (is_empty_key same codec driver owns_pool key) (raise value_error) run s h
            (prepared-HasLog event key r s h))

  module _ (same : B → B → Bool) (codec : Codec B) (driver : Driver D) (owns_pool : Bool)
      (event : Event) (key : Option String) (ex : Option (Option ℕ)) (encoded : B) where
    -- The run has returned this position and this state.
    abbrev pub Appends : State B D → Position → State B D → Type 0
    Appends s p t = append_encoded same codec driver owns_pool event key ex encoded s ≡ (ok p, t)

    pub Appends-Accepted :
        (s : State B D) (p : Position) (t : State B D)
        → Appends s p t
        → Accepted same codec driver owns_pool event key ex encoded s p t
    Appends-Accepted s p t h =
        subst
          (λ run.
            Ends (Accepted same codec driver owns_pool event key ex encoded s)
              (Raises s (Accepted same codec driver owns_pool event key ex encoded s)) run.0 run.1)
          h (append_encoded-Accepted same codec driver owns_pool event key ex encoded s)
