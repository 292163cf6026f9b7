-- ===== src/PostgresPersistence/Table.antt =====
-- The table of events of src/eventful/persistence/postgres_persistence.py, and its queries.
use eventful.Base.{
  Bool, true, false, ℕ, String, Option, none, some, List, [], ◌∷◌, ltb, str_eq, if◌then◌else◌,
}

-- A row of the table of events.
pub record Row (B : Type 0) : Type 0 where
  pub position : ℕ
  pub event_type : String
  pub media_type : String
  pub encoded_event : B
  pub idempotency_key : Option String

module _ {B : Type 0} where
  -- `COALESCE(MAX(position), -1)`, with `none` for -1
  unfoldable pub max_position : List (Row B) → Option ℕ
  max_position [] = none
  max_position (r ∷ rs) = elim (max_position rs) [
    | none ↦ some r.position
    | some p ↦ some (if ltb p r.position then r.position else p)
  ]

  abbrev pub has_key : String → Row B → Bool
  has_key key r = elim r.idempotency_key [ none ↦ false | some k ↦ str_eq k key ]

  -- `WHERE idempotency_key = $1`
  unfoldable pub find_key : String → List (Row B) → Option (Row B)
  find_key key [] = none
  find_key key (r ∷ rs) = let rest = find_key key rs in if has_key key r then some r else rest

  -- No row has a null key.
  abbrev pub find_optional : Option String → List (Row B) → Option (Row B)
  find_optional none rs = none
  find_optional (some key) rs = find_key key rs

  unfoldable pub insert_ascending : Row B → List (Row B) → List (Row B)
  insert_ascending r [] = r ∷ []
  insert_ascending r (q ∷ qs) =
      let rest = insert_ascending r qs in if ltb q.position r.position then q ∷ rest else r ∷ q ∷ qs

  -- `WHERE position > $1 ORDER BY position ASC`; `none` is -1.
  unfoldable pub select_after : Option ℕ → List (Row B) → List (Row B)
  unfolding insert_ascending
  select_after after [] = []
  select_after after (r ∷ rs) =
      let rest = select_after after rs in
      let wanted : Bool = elim after [ none ↦ true | some p ↦ ltb p r.position ] in
      if wanted then insert_ascending r rest else rest
