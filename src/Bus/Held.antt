-- ===== src/Bus/Held.antt =====
-- Which listener objects a list holds, after a listener is added or removed.
use eventful.Base.{
  false, ℕ, List, [], ◌∷◌, ◌++◌, ◌≡◌, refl, arith, ap, ◌==◌, ◌||◌, if◌then◌else◌, keep_if,
  Bool-cases, inl, inr, ==_iff,
}
use eventful.Listener.{Listener}
use eventful.Router.{differs}
use eventful.Bus.Registry.{holds, without}

-- No listener object stands in the list twice.
abbrev pub IsDistinct : List Listener → Type 0
IsDistinct [] = Unit
IsDistinct (l ∷ ls) = (holds l.ident ls ≡ false) × IsDistinct ls

pub holds-snoc :
    (i : ℕ) (l : Listener) (ls : List Listener)
    → holds i (ls ++ l ∷ []) ≡ (holds i ls || l.ident == i)
unfolding holds
holds-snoc i l [] = ground arith
holds-snoc i l (k ∷ ls) = ground (arith, holds-snoc i l ls)

pub holds-without :
    (i j : ℕ) (ls : List Listener)
    → IsDistinct ls
    → holds j (without i ls) ≡ (if i == j then false else holds j ls)
unfolding holds without
holds-without i j [] d = ground arith
holds-without i j (k ∷ ls) d = ground (arith, holds-without i j ls d.1)

pub IsDistinct-snoc :
    (l : Listener) (ls : List Listener)
    → holds l.ident ls ≡ false
    → IsDistinct ls
    → IsDistinct (ls ++ l ∷ [])
unfolding holds
IsDistinct-snoc l [] h d = (refl, tt)
IsDistinct-snoc l (k ∷ ls) h d =
    (rw holds-snoc (ground arith), IsDistinct-snoc l ls (ground arith) d.1)

pub IsDistinct-without : (i : ℕ) (ls : List Listener) → IsDistinct ls → IsDistinct (without i ls)
unfolding without
IsDistinct-without i [] d = tt
IsDistinct-without i (k ∷ ls) d = elim (Bool-cases (k.ident == i)) [
  | inl e ↦ rw e d.1
  | inr n ↦ rw n (rw (holds-without i k.ident ls d.1) (ground arith), IsDistinct-without i ls d.1)
]

keep_if-differs_absent :
    (l : Listener) (ls : List Listener) → holds l.ident ls ≡ false → keep_if (differs l) ls ≡ ls
unfolding holds keep_if
keep_if-differs_absent l [] h = refl
keep_if-differs_absent l (k ∷ ls) h = ground (arith, keep_if-differs_absent l ls)

-- The router filters a listener out, the bus removes its first occurrence: one effect.
pub keep_if-differs :
    (l : Listener) (ls : List Listener)
    → IsDistinct ls
    → keep_if (differs l) ls ≡ without l.ident ls
unfolding without keep_if
keep_if-differs l [] d = refl
keep_if-differs l (k ∷ ls) d = elim (Bool-cases (k.ident == l.ident)) [
  | inl e ↦ rw e (keep_if-differs_absent l ls (rw (← (==_iff k.ident l.ident).0 e) d.0))
  | inr n ↦ rw n (ap (◌∷◌ k) (keep_if-differs l ls d.1))
]
