-- ===== src/Base/Lists.antt =====
-- Lists by native numbers, with tests into `Bool`.
use Prim.Native.Nat.{ℕ, suc, ◌+◌, ◌≤◌}
use mathlib.Core.Path.{◌≡◌, refl}
use mathlib.Core.Bool.{Bool, true, false, ◌||◌}
use mathlib.Core.List.{List, [], ◌∷◌, ◌++◌}
use native.Mathlib.Omega.{arith}
use eventful.Base.Tests.{if◌then◌else◌, ◌==◌}

module _ {ℓ} {A : Type ℓ} where
  abbrev pub length : List A → ℕ
  length [] = 0
  length (x ∷ xs) = suc (length xs)

  pub length-append : (xs ys : List A) → length (xs ++ ys) ≡ length xs + length ys
  length-append [] ys = omega arith
  length-append (x ∷ xs) ys = omega (arith, length-append xs ys)

  -- `[x for x in xs if keep(x)]`
  unfoldable pub keep_if : (A → Bool) → List A → List A
  keep_if p [] = []
  keep_if p (x ∷ xs) = let rest = keep_if p xs in if p x then x ∷ rest else rest

  pub keep_if-append :
      (p : A → Bool) (xs ys : List A) → keep_if p (xs ++ ys) ≡ keep_if p xs ++ keep_if p ys
  unfolding keep_if
  keep_if-append p [] ys = refl
  keep_if-append p (x ∷ xs) ys = ground (arith, keep_if-append p xs ys)

  pub length-keep_if-le : (p : A → Bool) (xs : List A) → length (keep_if p xs) ≤ length xs
  unfolding keep_if
  length-keep_if-le p [] = omega arith
  length-keep_if-le p (x ∷ xs) = ground (arith, length-keep_if-le p xs)

  abbrev pub All {κ} : (A → Type κ) → List A → Type κ
  All P [] = Unit
  All P (x ∷ xs) = P x × All P xs

  pub All-append {κ} : (P : A → Type κ) (xs ys : List A) → All P xs → All P ys → All P (xs ++ ys)
  All-append P [] ys hx hy = hy
  All-append P (x ∷ xs) ys hx hy = (hx.0, All-append P xs ys hx.1 hy)

  pub All-keep_if {κ} :
      (P : A → Type κ) (p : A → Bool) (xs : List A) → All P xs → All P (keep_if p xs)
  unfolding keep_if
  All-keep_if P p [] h = tt
  All-keep_if P p (x ∷ xs) h = ground (arith, All-keep_if P p xs h.1)

module _ {ℓ} {A : Type ℓ} (p : A → Bool) where
  pub keep_if-All : (xs : List A) → All (λ x. p x ≡ true) xs → keep_if p xs ≡ xs
  unfolding keep_if
  keep_if-All [] h = refl
  keep_if-All (x ∷ xs) h = ground (arith, keep_if-All xs h.1)

  pub All-keep_if_self : (xs : List A) → All (λ x. p x ≡ true) (keep_if p xs)
  unfolding keep_if
  All-keep_if_self [] = tt
  All-keep_if_self (x ∷ xs) = ground (arith, All-keep_if_self xs)

  -- A last element that the test refuses goes, and the rest stays.
  pub keep_if_snoc :
      (xs : List A) (x : A) → All (λ x. p x ≡ true) xs → p x ≡ false → keep_if p (xs ++ x ∷ []) ≡ xs
  unfolding keep_if
  keep_if_snoc [] x h k = rw k
  keep_if_snoc (y ∷ xs) x h k = ground (arith, keep_if_snoc xs x h.1 k)

-- Membership and removal of identities.
unfoldable pub has : ℕ → List ℕ → Bool
has a [] = false
has a (x ∷ xs) = x == a || has a xs

-- `list.remove`: the first occurrence.
unfoldable pub remove_first : ℕ → List ℕ → List ℕ
remove_first a [] = []
remove_first a (x ∷ xs) = let rest = remove_first a xs in if x == a then xs else x ∷ rest
