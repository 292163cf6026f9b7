-- ===== src/PostgresPersistence/Rows.antt =====
-- Computations on the store by what holds when they return and when they raise.
use eventful.Base.{
  Bool, true, false, Option, none, some, List, ◌≡◌, refl, sym, ◌∙◌, ◌≤◌, arith, if◌then◌else◌, ◌⊎◌,
  inl, inr,
}
use eventful.Exceptions.{Exc, Result, ok, err}
use eventful.Runtime.{Comp, ◌>>=◌, continue}
use eventful.PostgresPersistence.{
  State, Driver, on_driver, transaction, statement, with_rows, on_rows, guarded, as_store_error,
  Commit, done, refused, cut_off, begun, ended, committed, undone, replaced, acquired,
}
use eventful.PostgresPersistence.Table.{Row}

abbrev pub Ends : {S A : Type 0} → (A → S → Type 0) → (Exc → S → Type 0) → Result A → S → Type 0
Ends Q E (ok a) t = Q a t
Ends Q E (err e) t = E e t

-- `m` is run in `s`.
abbrev pub Runs : {S A : Type 0} → (A → S → Type 0) → (Exc → S → Type 0) → Comp S A → S → Type 0
Runs Q E m s = Ends Q E (m s).0 (m s).1

module _ {S : Type 0} (E : Exc → S → Type 0) where
  pub continue-Ends :
      {A B : Type 0} (Q : A → S → Type 0) (P : B → S → Type 0) (r : Result A) (t : S)
      (f : A → Comp S B)
      → Ends Q E r t
      → ((a : A) (u : S) → Q a u → Runs P E (f a) u)
      → Ends P E (continue r f t).0 (continue r f t).1
  continue-Ends Q P (ok a) t f h k = k a t h
  continue-Ends Q P (err e) t f h k = h

  pub bind-Runs :
      {A B : Type 0} (Q : A → S → Type 0) (P : B → S → Type 0) (m : Comp S A) (f : A → Comp S B)
      (s : S)
      → Runs Q E m s
      → ((a : A) (u : S) → Q a u → Runs P E (f a) u)
      → Runs P E (m >>= f) s
  bind-Runs Q P m f s h k = continue-Ends Q P (m s).0 (m s).1 f h k

  pub post-Runs :
      {A : Type 0} (Q P : A → S → Type 0) (r : Result A) (t : S)
      → Ends Q E r t
      → ((a : A) (u : S) → Q a u → P a u)
      → Ends P E r t
  post-Runs Q P (ok a) t h k = k a t h
  post-Runs Q P (err e) t h k = h

pub if-Runs :
    {S A : Type 0} (Q : A → S → Type 0) (E : Exc → S → Type 0) (b : Bool) (m n : Comp S A) (s : S)
    → (b ≡ true → Runs Q E m s)
    → (b ≡ false → Runs Q E n s)
    → Runs Q E (if b then m else n) s
if-Runs Q E true m n s h k = h refl
if-Runs Q E false m n s h k = k refl

pub errors-Ends :
    {S A : Type 0} (Q : A → S → Type 0) (E F : Exc → S → Type 0) (r : Result A) (t : S)
    → Ends Q E r t
    → ((e : Exc) (u : S) → E e u → F e u)
    → Ends Q F r t
errors-Ends Q E F (ok a) t h k = h
errors-Ends Q E F (err e) t h k = k e t h

-- The tables and the sequence are the same.
pub record SameTables {B D : Type 0} (s t : State B D) : Type 0 where
  pub version : t.version ≡ s.version
  pub rows : t.rows ≡ s.rows
  pub next : t.next_position ≡ s.next_position

-- What holds of a state that has raised inside a transaction: the sequence has not gone back.
abbrev pub NotBack : {B D : Type 0} → State B D → Exc → State B D → Type 0
NotBack s e t = s.next_position ≤ t.next_position

module _ {B D : Type 0} where
  pub SameTables-refl : (s : State B D) → SameTables s s
  SameTables-refl s = record { version = refl; rows = refl; next = refl }

  pub SameTables-trans : (s t u : State B D) → SameTables s t → SameTables t u → SameTables s u
  SameTables-trans s t u h k = record {
    version = k.version ∙ h.version;
    rows = k.rows ∙ h.rows;
    next = k.next ∙ h.next;
  }

  pub on_driver-Ends :
      (s : State B D) (r : Result (Unit {0})) (d : D) (t : State B D)
      → SameTables s t
      → Ends (λ _ u. SameTables s u) (NotBack s) r (record t { driver = d })
  on_driver-Ends s (ok _) d t h = record { version = h.version; rows = h.rows; next = h.next }
  on_driver-Ends s (err e) d t h = ground (arith, h.next)

  -- A statement: its effect runs on the same tables.
  pub statement-Runs :
      {A : Type 0} (Q : A → State B D → Type 0) (driver : Driver D) (m : Comp (State B D) A)
      (s t : State B D)
      → SameTables s t
      → ((u : State B D) → SameTables s u → Runs Q (NotBack s) m u)
      → Runs Q (NotBack s) (statement driver m) t
  statement-Runs Q driver m s t h k =
      bind-Runs (NotBack s) (λ _ u. SameTables s u) Q (on_driver driver.send) (λ _. m) t
        (on_driver-Ends s (driver.send t.driver).0 (driver.send t.driver).1 t h) (λ _ u. k u)

  pub on_rows-Runs :
      {A : Type 0} (Q : A → State B D → Type 0) (f : List (Row B) → Comp (State B D) A)
      (s t : State B D) (rows : Option (List (Row B)))
      → t.rows ≡ rows
      → SameTables s t
      → ((rs : List (Row B)) → s.rows ≡ some rs → Runs Q (NotBack s) (f rs) t)
      → Runs Q (NotBack s) (on_rows rows f) t
  on_rows-Runs Q f s t none e h k = ground (arith, h.next)
  on_rows-Runs Q f s t (some rs) e h k = k rs (sym h.rows ∙ e)

  pub with_rows-Runs :
      {A : Type 0} (Q : A → State B D → Type 0) (f : List (Row B) → Comp (State B D) A)
      (s t : State B D)
      → SameTables s t
      → ((rs : List (Row B)) → s.rows ≡ some rs → Runs Q (NotBack s) (f rs) t)
      → Runs Q (NotBack s) (with_rows f) t
  with_rows-Runs Q f s t h k = on_rows-Runs Q f s t t.rows refl h k

-- The `except` clauses of the store let through no other exceptions.
pub record IsReported (e : Exc) : Type 0 where
  pub kept : as_store_error e ≡ e

pub as_store_error-IsReported : (e : Exc) → IsReported (as_store_error e)
as_store_error-IsReported e = record { kept = ground arith }

module _ {B D : Type 0} where
  -- What a raise leaves: the tables as they were.
  pub record Undone (s t : State B D) : Type 0 where
    pub version : t.version ≡ s.version
    pub rows : t.rows ≡ s.rows
    pub next : s.next_position ≤ t.next_position

  abbrev pub Reports : State B D → Exc → State B D → Type 0
  Reports s e t = IsReported e × Undone s t

  -- A raise leaves the tables as they were, or has the effect of a return: the database had committed.
  abbrev pub Left : {A : Type 0} → State B D → (A → State B D → Type 0) → Exc → State B D → Type 0
  Left {A} s Q e t = Undone s t ⊎ ((a : A) × Q a t)

  abbrev pub Raises : {A : Type 0} → State B D → (A → State B D → Type 0) → Exc → State B D → Type 0
  Raises s Q e t = IsReported e × Left s Q e t

  -- What holds when a transaction has succeeded looks at the tables and not at the driver.
  pub record OfTables {A : Type 0} (Q : A → State B D → Type 0) : Type 0 where
    pub still : (a : A) (t : State B D) (d : D) → Q a t → Q a (record t { driver = d })

  module _ {A : Type 0} (Q : A → State B D → Type 0) (o : OfTables Q) (driver : Driver D)
      (s : State B D) where
    still-Undone : (t : State B D) (d : D) → Undone s t → Undone s (record t { driver = d })
    still-Undone t d u = record { version = u.version; rows = u.rows; next = u.next }

    still-Left :
        (e f : Exc) (t : State B D) (d : D) → Left s Q e t → Left s Q f (record t { driver = d })
    still-Left e f t d (inl u) = inl (still-Undone t d u)
    still-Left e f t d (inr (a, q)) = inr (a, o.still a t d q)

    committed-Ends :
        (t : State B D)
        → SameTables s t
        → (a : A) (c : Commit) (d : D) (u : State B D) → s.next_position ≤ u.next_position
        → Q a u
        → Ends Q (Left s Q) (committed t a (c, d) u).0 (committed t a (c, d) u).1
    committed-Ends t h a done d u n q = o.still a u d q
    committed-Ends t h a (refused e) d u n q =
        inl (record { version = h.version; rows = h.rows; next = n })
    committed-Ends t h a (cut_off e) d u n q = inr (a, o.still a u d q)

    rolled_back-Ends :
        (e : Exc) (r : Result (Unit {0})) (t : State B D)
        → Undone s t
        → Ends Q (Left s Q) (replaced (err e) r) t
    rolled_back-Ends e (ok _) t h = inl h
    rolled_back-Ends e (err f) t h = inl h

    ended-Ends :
        (t : State B D)
        → SameTables s t
        → (r : Result A) (u : State B D)
        → Ends (λ a v. Q a v × (s.next_position ≤ v.next_position)) (NotBack s) r u
        → Ends Q (Left s Q) (ended driver t r u).0 (ended driver t r u).1
    ended-Ends t h (ok a) u q =
        committed-Ends t h a (driver.commit u.driver).0 (driver.commit u.driver).1 u q.1 q.0
    ended-Ends t h (err e) u n =
        let (r, d) = driver.rollback u.driver in
        rolled_back-Ends e r (undone t (record u { driver = d }))
          (record { version = h.version; rows = h.rows; next = n })

    begun-Ends :
        (body : Comp (State B D) A) (r : Result (Unit {0})) (t : State B D)
        → SameTables s t
        → Runs (λ a v. Q a v × (s.next_position ≤ v.next_position)) (NotBack s) body t
        → Ends Q (Left s Q) (begun driver body r t).0 (begun driver body r t).1
    begun-Ends body (ok _) t h k = ended-Ends t h (body t).0 (body t).1 k
    begun-Ends body (err e) t h k =
        inl (record { version = h.version; rows = h.rows; next = ground (arith, h.next) })

    replaced-Ends :
        (r : Result A) (q : Result (Unit {0})) (d : D) (t : State B D)
        → Ends Q (Left s Q) r t
        → Ends Q (Left s Q) (replaced r q) (record t { driver = d })
    replaced-Ends (ok a) (ok _) d t h = o.still a t d h
    replaced-Ends (err e) (ok _) d t h = still-Left e e t d h
    replaced-Ends (ok a) (err f) d t h = inr (a, o.still a t d h)
    replaced-Ends (err e) (err f) d t h = still-Left e f t d h

    acquired-Ends :
        (body : Comp (State B D) A) (r : Result (Unit {0})) (t : State B D)
        → SameTables s t
        → ((u : State B D)
            → SameTables s u
            → Runs (λ a v. Q a v × (s.next_position ≤ v.next_position)) (NotBack s) body u)
        → Ends Q (Left s Q) (acquired driver body r t).0 (acquired driver body r t).1
    acquired-Ends body (err e) t h k =
        inl (record { version = h.version; rows = h.rows; next = ground (arith, h.next) })
    acquired-Ends body (ok _) t h k =
        let u : State B D = record t { driver = (driver.begin t.driver).1 } in
        let hu : SameTables s u = record { version = h.version; rows = h.rows; next = h.next } in
        let r : Result (Unit {0}) = (driver.begin t.driver).0 in
        let run : Result A × State B D = begun driver body r u in
        replaced-Ends run.0 (driver.release_connection run.1.driver).0
          (driver.release_connection run.1.driver).1 run.1 (begun-Ends body r u hu (k u hu))

    pub guarded-Ends :
        (r : Result A) (t : State B D)
        → Ends Q (Left s Q) r t
        → Ends Q (Raises s Q) (guarded (r, t)).0 (guarded (r, t)).1
    guarded-Ends (ok a) t h = h
    guarded-Ends (err e) t h = (as_store_error-IsReported e, h)

    -- A transaction of the store, with its `except` clauses.
    pub transaction-Runs :
        (body : Comp (State B D) A) (t : State B D)
        → SameTables s t
        → ((u : State B D)
            → SameTables s u
            → Runs (λ a v. Q a v × (s.next_position ≤ v.next_position)) (NotBack s) body u)
        → Runs Q (Raises s Q) (λ v. guarded (transaction driver body v)) t
    unfolding transaction
    transaction-Runs body t h k =
        let u : State B D = record t { driver = (driver.acquire_connection t.driver).1 } in
        let hu : SameTables s u = record { version = h.version; rows = h.rows; next = h.next } in
        let r : Result (Unit {0}) = (driver.acquire_connection t.driver).0 in
        guarded-Ends (acquired driver body r u).0 (acquired driver body r u).1
          (acquired-Ends body r u hu k)

  -- What raises before the transaction.
  pub Reports-Runs :
      {A C : Type 0} (P : C → State B D → Type 0) (Q : A → State B D → Type 0) (s : State B D)
      (m : Comp (State B D) C) (t : State B D)
      → Runs P (Reports s) m t
      → Runs P (Raises s Q) m t
  Reports-Runs P Q s m t h =
      errors-Ends P (Reports s) (Raises s Q) (m t).0 (m t).1 h (λ e u k. (k.0, inl k.1))
