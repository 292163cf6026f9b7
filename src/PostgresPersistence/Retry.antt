-- ===== src/PostgresPersistence/Retry.antt =====
-- Appends to src/eventful/persistence/postgres_persistence.py that are sent again.
use eventful.Base.{
  Bool, ℕ, String, Option, none, some, some-injective, List, [], ◌∷◌, ◌++◌, ◌≡◌, sym, ◌∙◌, ap, ◌⊎◌,
  inl, inr, arith, ◌≤◌,
}
use eventful.Event.{Event}
use eventful.Exceptions.{Result, ok, err}
use eventful.Position.{Position, decimal}
use eventful.Codec.{Codec}
use eventful.PostgresPersistence.{State, Driver}
use eventful.PostgresPersistence.Table.{Row, find_key}
use eventful.PostgresPersistence.Log.{find_key-appended, str_eq_refl}
use eventful.PostgresPersistence.Operations.{append_encoded}
use eventful.PostgresPersistence.Rows.{Ends, Runs, Reports, Raises}
use eventful.PostgresPersistence.Appends.{Accepted, Inserted, Found, append_encoded-Accepted}
use eventful.PostgresPersistence.History.{Appends, Appends-Accepted}

module _ {B D : Type 0} where
  module _ (same : B → B → Bool) (codec : Codec B) (driver : Driver D) (owns_pool : Bool)
      (event : Event) (key : String) (encoded : B) where
    -- The table has the key, at this position.
    record Holds (p : Position) (t : State B D) : Type 0 where
      rows : List (Row B)
      table : t.rows ≡ some rows
      row : Row B
      found : find_key key rows ≡ some row
      position : p ≡ decimal row.position

    verdict-Holds :
        (ex : Option (Option ℕ)) (s : State B D) (rs : List (Row B)) (p : Position) (t : State B D)
        → Inserted same codec driver owns_pool event (some key) ex encoded s rs p t
          ⊎ Found same codec driver owns_pool event (some key) ex encoded s rs p t
        → Holds p t
    verdict-Holds ex s rs p t (inr f) = record {
      rows = rs;
      table = f.rows;
      row = f.row;
      found = f.found;
      position = f.position;
    }
    verdict-Holds ex s rs p t (inl i) =
        let r : Row B = record {
          position = s.next_position;
          event_type = event.type;
          media_type = codec.media_type;
          encoded_event = encoded;
          idempotency_key = some key;
        } in
        record {
          rows = rs ++ r ∷ [];
          table = i.rows;
          row = r;
          found = find_key-appended key rs r i.fresh (str_eq_refl key);
          position = i.position;
        }

    Holds-verdict :
        (ex : Option (Option ℕ)) (p : Position) (t : State B D) (h : Holds p t) (q : Position)
        (u : State B D) (rs : List (Row B))
        → t.rows ≡ some rs
        → Inserted same codec driver owns_pool event (some key) ex encoded t rs q u
          ⊎ Found same codec driver owns_pool event (some key) ex encoded t rs q u
        → (q ≡ p) × (u.rows ≡ t.rows)
    Holds-verdict ex p t h q u rs e (inr f) =
        let same_rows : rs ≡ h.rows = some-injective rs h.rows (sym e ∙ h.table) in
        let same_row : f.row ≡ h.row =
          some-injective f.row h.row (sym f.found ∙ ap (find_key key) same_rows ∙ h.found) in
        (f.position ∙ ap (λ r. decimal r.position) same_row ∙ sym h.position, f.rows ∙ sym e)
    Holds-verdict ex p t h q u rs e (inl i) =
        let same_rows : rs ≡ h.rows = some-injective rs h.rows (sym e ∙ h.table) in
        let clash : none ≡ some h.row = sym i.fresh ∙ ap (find_key key) same_rows ∙ h.found in
        ground (arith, clash)

    verdict-next :
        (ex : Option (Option ℕ)) (t : State B D) (rs : List (Row B)) (q : Position) (u : State B D)
        → Inserted same codec driver owns_pool event (some key) ex encoded t rs q u
          ⊎ Found same codec driver owns_pool event (some key) ex encoded t rs q u
        → t.next_position ≤ u.next_position
    verdict-next ex t rs q u (inl i) = ground (arith, i.next)
    verdict-next ex t rs q u (inr f) = f.next

    again-Ends :
        (ex : Option (Option ℕ)) (p : Position) (t : State B D)
        → Holds p t
        → (r : Result Position) (u : State B D)
        → Ends
            (Accepted same codec driver owns_pool event (some key) ex encoded t)
            (Raises t (Accepted same codec driver owns_pool event (some key) ex encoded t))
            r
            u
        → Ends (λ q u. (q ≡ p) × (u.rows ≡ t.rows)) (Reports t) r u
    again-Ends ex p t h (ok q) u b = Holds-verdict ex p t h q u b.rows b.before b.outcome
    again-Ends ex p t h (err e) u (reported, inl undone) = (reported, undone)
    again-Ends ex p t h (err e) u (reported, inr (q, b)) = (
      reported,
      record {
        version = b.version;
        rows = (Holds-verdict ex p t h q u b.rows b.before b.outcome).1;
        next = verdict-next ex t b.rows q u b.outcome;
      },
    )

    -- An append with a key that has returned a position may be sent again, also with another expected
    -- position and whatever the driver does: when it returns, it returns the same position and has added
    -- no row, and when it raises, the table is the same too.
    pub append_encoded-again :
        (ex again : Option (Option ℕ)) (s : State B D) (p : Position) (t : State B D)
        → Appends same codec driver owns_pool event (some key) ex encoded s p t
        → Runs
            (λ q u. (q ≡ p) × (u.rows ≡ t.rows))
            (Reports t)
            (append_encoded same codec driver owns_pool event (some key) again encoded)
            t
    append_encoded-again ex again s p t h =
        let a : Accepted same codec driver owns_pool event (some key) ex encoded s p t =
          Appends-Accepted same codec driver owns_pool event (some key) ex encoded s p t h in
        let run : Result Position × State B D =
          append_encoded same codec driver owns_pool event (some key) again encoded t in
        again-Ends again p t (verdict-Holds ex s a.rows p t a.outcome) run.0 run.1
          (append_encoded-Accepted same codec driver owns_pool event (some key) again encoded t)
