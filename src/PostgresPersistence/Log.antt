-- ===== src/PostgresPersistence/Log.antt =====
-- The table of events of src/eventful/persistence/postgres_persistence.py as a log.
use eventful.Base.{
  Bool, true, false, ℕ, suc, String, Option, none, some, List, [], ◌∷◌, ◌++◌, ◌≡◌, refl, sym, subst,
  ◌∙◌, ap, ◌≤◌, ◌<◌, ltb, str_eq, arith, eq_iff, All, All-append, All-keep_if, keep_if,
}
use eventful.PostgresPersistence.Table.{
  Row, max_position, has_key, find_key, find_optional, insert_ascending, select_after,
}

str_eq-swap : (a b : String) → str_eq a b ≡ false → str_eq b a ≡ false
str_eq-swap a b h = grind (arith, eq_iff, h)

pub str_eq_refl : (a : String) → str_eq a a ≡ true
str_eq_refl a = grind (arith, eq_iff)

module _ {B : Type 0} where
  -- Every row stands after the rows before it.
  abbrev pub IsAscending : List (Row B) → Type 0
  IsAscending [] = Unit
  IsAscending (r ∷ rs) = All (λ q. r.position < q.position) rs × IsAscending rs

  -- No two rows have the same key.
  abbrev pub HasUniqueKeys : List (Row B) → Type 0
  HasUniqueKeys [] = Unit
  HasUniqueKeys (r ∷ rs) = (find_optional r.idempotency_key rs ≡ none) × HasUniqueKeys rs

  -- The rows with positions below the next one, in ascending order, each with its own key.
  pub record IsLog (next : ℕ) (rs : List (Row B)) : Type 0 where
    pub ascending : IsAscending rs
    pub below : All (λ r. r.position < next) rs
    pub unique : HasUniqueKeys rs

  pub IsAscending-append :
      (rs : List (Row B)) (r : Row B)
      → IsAscending rs
      → All (λ q. q.position < r.position) rs
      → IsAscending (rs ++ r ∷ [])
  IsAscending-append [] r h k = (tt, tt)
  IsAscending-append (q ∷ rs) r h k = (
    All-append (λ p. q.position < p.position) rs (r ∷ []) h.0 (k.0, tt),
    IsAscending-append rs r h.1 k.1,
  )

  pub All-below :
      (m n : ℕ) (rs : List (Row B))
      → m ≤ n
      → All (λ r. r.position < m) rs
      → All (λ r. r.position < n) rs
  All-below m n [] h k = tt
  All-below m n (r ∷ rs) h k = (omega (arith, h, k.0), All-below m n rs h k.1)

  -- The row that has just been appended is found by its key.
  pub find_key-appended :
      (key : String) (rs : List (Row B)) (r : Row B)
      → find_key key rs ≡ none
      → has_key key r ≡ true
      → find_key key (rs ++ r ∷ []) ≡ some r
  unfolding find_key
  find_key-appended key [] r h k = ground (arith, k)
  find_key-appended key (q ∷ rs) r h k = ground (arith, h, find_key-appended key rs r)

  find_key-append :
      (key : String) (rs : List (Row B)) (r : Row B)
      → find_key key rs ≡ none
      → has_key key r ≡ false
      → find_key key (rs ++ r ∷ []) ≡ none
  unfolding find_key
  find_key-append key [] r h k = ground (arith, k)
  find_key-append key (q ∷ rs) r h k = ground (arith, h, find_key-append key rs r)

  -- A key that no row has is not the key of the first row, and no key of the others.
  find_key-first :
      (key : String) (q : Row B) (rs : List (Row B))
      → find_key key (q ∷ rs) ≡ none
      → (has_key key q ≡ false) × (find_key key rs ≡ none)
  unfolding find_key
  find_key-first key q rs h = ground (arith, h)

  find_optional-rest :
      (key : Option String) (q : Row B) (rs : List (Row B))
      → find_optional key (q ∷ rs) ≡ none
      → find_optional key rs ≡ none
  find_optional-rest none q rs h = refl
  find_optional-rest (some key) q rs h = (find_key-first key q rs h).1

  has_key-swap :
      (q r : Row B) (a b : String)
      → q.idempotency_key ≡ some a
      → r.idempotency_key ≡ some b
      → has_key b q ≡ false
      → has_key a r ≡ false
  has_key-swap q r a b e f h = ground (arith, e, f, h, str_eq-swap a b)

  -- The keys of a row and of a row that is appended differ.
  find_optional-append :
      (q r : Row B) (kq kr : Option String) (rs : List (Row B))
      → q.idempotency_key ≡ kq
      → r.idempotency_key ≡ kr
      → find_optional kq rs ≡ none
      → find_optional kr (q ∷ rs) ≡ none
      → find_optional kq (rs ++ r ∷ []) ≡ none
  find_optional-append q r none kr rs e f h k = refl
  find_optional-append q r (some a) none rs e f h k = find_key-append a rs r h (rw f)
  find_optional-append q r (some a) (some b) rs e f h k =
      let distinct : has_key b q ≡ false = (find_key-first b q rs k).0 in
      find_key-append a rs r h (has_key-swap q r a b e f distinct)

  IsUnique-append :
      (rs : List (Row B)) (r : Row B)
      → HasUniqueKeys rs
      → find_optional r.idempotency_key rs ≡ none
      → HasUniqueKeys (rs ++ r ∷ [])
  IsUnique-append [] r h k = (k, tt)
  IsUnique-append (q ∷ rs) r h k = (
    find_optional-append q r q.idempotency_key r.idempotency_key rs refl refl h.0 k,
    IsUnique-append rs r h.1 (find_optional-rest r.idempotency_key q rs k),
  )

  -- A row with the next position and a key that no row has yet.
  pub IsLog-append :
      (next : ℕ) (rs : List (Row B)) (r : Row B)
      → IsLog next rs
      → r.position ≡ next
      → find_optional r.idempotency_key rs ≡ none
      → IsLog (suc next) (rs ++ r ∷ [])
  IsLog-append next rs r h e f = record {
    ascending =
        IsAscending-append rs r h.ascending
          (subst (λ n. All (λ q. q.position < n) rs) (sym e) h.below);
    below =
        All-append (λ q. q.position < suc next) rs (r ∷ [])
          (All-below next (suc next) rs (omega arith) h.below) (omega (arith, e), tt);
    unique = IsUnique-append rs r h.unique f;
  }

  -- The last position of an ascending table is its greatest.
  pub max_position-append :
      (rs : List (Row B)) (r : Row B)
      → All (λ q. q.position < r.position) rs
      → max_position (rs ++ r ∷ []) ≡ some r.position
  unfolding max_position
  max_position-append [] r h = refl
  max_position-append (q ∷ rs) r h = ground (arith, max_position-append rs r h.1, h.0)

  abbrev pub is_after : Option ℕ → Row B → Bool
  is_after none r = true
  is_after (some p) r = ltb p r.position

  insert_ascending-first :
      (r : Row B) (rs : List (Row B))
      → All (λ q. r.position < q.position) rs
      → insert_ascending r rs ≡ r ∷ rs
  unfolding insert_ascending
  insert_ascending-first r [] h = refl
  insert_ascending-first r (q ∷ rs) h = ground (arith, h.0)

  select_after-first :
      (after : Option ℕ) (r : Row B) (rs : List (Row B))
      → All (λ q. r.position < q.position) rs
      → select_after after rs ≡ keep_if (is_after after) rs
      → insert_ascending r (select_after after rs) ≡ r ∷ keep_if (is_after after) rs
  select_after-first after r rs h e =
      ap (insert_ascending r) e
      ∙ insert_ascending-first r (keep_if (is_after after) rs)
          (All-keep_if (λ q. r.position < q.position) (is_after after) rs h)

  -- The query of an ascending table selects the later rows and keeps their order.
  pub select_after_lem :
      (after : Option ℕ) (rs : List (Row B))
      → IsAscending rs
      → select_after after rs ≡ keep_if (is_after after) rs
  unfolding select_after keep_if
  select_after_lem after [] h = refl
  select_after_lem none (r ∷ rs) h = select_after-first none r rs h.0 (select_after_lem none rs h.1)
  select_after_lem (some p) (r ∷ rs) h = ground (
    arith,
    select_after_lem (some p) rs h.1,
    select_after-first (some p) r rs h.0 (select_after_lem (some p) rs h.1),
  )

  -- Every row is after the start.
  pub keep_if-start : (rs : List (Row B)) → keep_if (is_after none) rs ≡ rs
  unfolding keep_if
  keep_if-start [] = refl
  keep_if-start (r ∷ rs) = ap (λ qs. r ∷ qs) (keep_if-start rs)
