-- ===== src/Base/Dict.antt =====
-- Python's `dict` with text keys: an association list in insertion order.
use Prim.Native.String.{String}
use mathlib.Core.Path.{◌≡◌, refl}
use mathlib.Core.Logic.{inl, inr}
use mathlib.Core.Bool.{Bool, true, false}
use mathlib.Core.Option.{Option, none, some}
use mathlib.Core.List.{List, [], ◌∷◌, ◌++◌, map}
use native.Mathlib.Omega.{arith}
use text.Mathlib.TextEquality.{eq_iff}
use eventful.Base.Tests.{str_eq, if◌then◌else◌, Bool-cases}

abbrev pub Dict {ℓ} : Type ℓ → Type ℓ
Dict V = List (String × V)

module _ {ℓ} {V : Type ℓ} where
  -- `d.get(k)`
  unfoldable pub get : String → Dict V → Option V
  get k [] = none
  get k ((j, v) ∷ d) = let rest = get k d in if str_eq j k then some v else rest

  -- `d[k] = v`: a key that is there keeps its place.
  unfoldable pub put : String → V → Dict V → Dict V
  put k v [] = (k, v) ∷ []
  put k v ((j, w) ∷ d) = let rest = put k v d in if str_eq j k then (j, v) ∷ d else (j, w) ∷ rest

  -- `del d[k]`, where the key may be absent
  unfoldable pub del : String → Dict V → Dict V
  del k [] = []
  del k ((j, v) ∷ d) = let rest = del k d in if str_eq j k then rest else (j, v) ∷ rest

  -- `k in d`
  abbrev pub contains : String → Dict V → Bool
  contains k d = elim (get k d) [ none ↦ false | some _ ↦ true ]

  pub get-put :
      (k j : String) (v : V) (d : Dict V)
      → get j (put k v d) ≡ (if str_eq k j then some v else get j d)
  unfolding get put
  get-put k j v [] = ground (arith, eq_iff k j)
  get-put k j v ((i, w) ∷ d) = ground (arith, eq_iff k j, eq_iff i k, eq_iff i j, get-put k j v d)

  pub get-del :
      (k j : String) (d : Dict V) → get j (del k d) ≡ (if str_eq k j then none else get j d)
  unfolding get del
  get-del k j [] = ground (arith, eq_iff k j)
  get-del k j ((i, w) ∷ d) = ground (arith, eq_iff k j, eq_iff i k, eq_iff i j, get-del k j d)

  pub get-put_self : (k : String) (v : V) (d : Dict V) → get k (put k v d) ≡ some v
  get-put_self k v d = ground (arith, get-put k k v d, eq_iff k k)

  -- Putting a new key appends it.
  pub put_fresh : (k : String) (v : V) (d : Dict V) → get k d ≡ none → put k v d ≡ d ++ (k, v) ∷ []
  unfolding get put
  put_fresh k v [] h = refl
  put_fresh k v ((i, w) ∷ d) h = ground (arith, eq_iff i k, put_fresh k v d)

  -- Deleting a new key undoes its put.
  pub del-put_fresh : (k : String) (v : V) (d : Dict V) → get k d ≡ none → del k (put k v d) ≡ d
  unfolding get put del
  del-put_fresh k v [] h = ground (arith, eq_iff k k)
  del-put_fresh k v ((i, w) ∷ d) h = ground (arith, eq_iff i k, eq_iff k k, del-put_fresh k v d)

  pub put-put : (k : String) (v w : V) (d : Dict V) → put k v (put k w d) ≡ put k v d
  unfolding put
  put-put k v w [] = ground (arith, eq_iff k k)
  put-put k v w ((i, u) ∷ d) = ground (arith, eq_iff i k, put-put k v w d)

  pub put_same : (k : String) (v : V) (d : Dict V) → get k d ≡ some v → put k v d ≡ d
  unfolding get put
  put_same k v [] h = cc
  put_same k v ((i, u) ∷ d) h = ground (arith, eq_iff i k, put_same k v d)

  abbrev pub keys : Dict V → List String
  keys d = map (λ e. e.0) d

  abbrev pub values : Dict V → List V
  values d = map (λ e. e.1) d

  -- A `dict` has each key once.
  abbrev pub IsKeyed : Dict V → Type ℓ
  IsKeyed [] = Unit
  IsKeyed ((k, v) ∷ d) = (get k d ≡ none) × IsKeyed d

  pub put-IsKeyed : (k : String) (v : V) (d : Dict V) → IsKeyed d → IsKeyed (put k v d)
  unfolding put get
  put-IsKeyed k v [] u = (refl, tt)
  put-IsKeyed k v ((j, w) ∷ d) u = elim (Bool-cases (str_eq j k)) [
    | inl e ↦ rw e u
    | inr n ↦ rw n (rw get-put (ground (arith, eq_iff j k, eq_iff k j, u.0)), put-IsKeyed k v d u.1)
  ]

  get-del-none : (k j : String) (d : Dict V) → get j d ≡ none → get j (del k d) ≡ none
  get-del-none k j d h = ground (arith, get-del k j d)

  pub del-IsKeyed : (k : String) (d : Dict V) → IsKeyed d → IsKeyed (del k d)
  unfolding del
  del-IsKeyed k [] u = tt
  del-IsKeyed k ((j, w) ∷ d) u = elim (Bool-cases (str_eq j k)) [
    | inl e ↦ rw e (del-IsKeyed k d u.1)
    | inr n ↦ rw n (get-del-none k j d u.0, del-IsKeyed k d u.1)
  ]
