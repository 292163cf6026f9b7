-- ===== src/Dispatch/Order.antt =====
-- The order is a rearrangement of the selected listeners, by falling priority.
use mathlib.Core.List.{Perm}
use mathlib.Core.List.Perm
use eventful.Base.{true, false, List, [], ◌∷◌, arith, All, ◌≡◌, Bool-cases, inl, inr}
use eventful.Listener.{Listener, Priority, high}
use eventful.Dispatch.{Dispatcher, below, priority, insert, sort_descending, dispatch_order}

pub below_asym : (a b : Priority) → below a b ≡ true → below b a ≡ false
below_asym (high a) (high b) h = ground arith
below_asym _ _ h = ground arith

pub below_trans : (a b c : Priority) → below b a ≡ false → below c b ≡ false → below c a ≡ false
below_trans (high a) (high b) (high c) p q = ground arith
below_trans _ _ _ p q = ground arith

-- No listener of the list has a higher priority than `l`.
abbrev pub Tops : Listener → List Listener → Type 0
Tops l = All (λ k. below (priority l) (priority k) ≡ false)

abbrev pub IsDescending : List Listener → Type 0
IsDescending [] = Unit
IsDescending (l ∷ ls) = Tops l ls × IsDescending ls

Tops-insert :
    (k l : Listener) (ls : List Listener)
    → below (priority k) (priority l) ≡ false
    → Tops k ls
    → Tops k (insert l ls)
unfolding insert
Tops-insert k l [] h t = (h, tt)
Tops-insert k l (j ∷ js) h t = elim (Bool-cases (below (priority l) (priority j))) [
  | inl up ↦ rw up (t.0, Tops-insert k l js h t.1)
  | inr here ↦ rw here (h, t)
]

Tops-lower :
    (l k : Listener) (ls : List Listener)
    → below (priority l) (priority k) ≡ false
    → Tops k ls
    → Tops l ls
Tops-lower l k [] h t = tt
Tops-lower l k (j ∷ js) h t =
    (below_trans (priority j) (priority k) (priority l) t.0 h, Tops-lower l k js h t.1)

insert-IsDescending :
    (l : Listener) (ls : List Listener) → IsDescending ls → IsDescending (insert l ls)
unfolding insert
insert-IsDescending l [] d = (tt, tt)
insert-IsDescending l (k ∷ ks) d = elim (Bool-cases (below (priority l) (priority k))) [
  | inl up ↦ rw up (
    Tops-insert k l ks (below_asym (priority l) (priority k) up) d.0,
    insert-IsDescending l ks d.1,
  )
  | inr here ↦ rw here ((here, Tops-lower l k ks here d.0), d)
]

pub sort_descending-IsDescending : (ls : List Listener) → IsDescending (sort_descending ls)
unfolding sort_descending
sort_descending-IsDescending [] = tt
sort_descending-IsDescending (l ∷ ls) =
    insert-IsDescending l (sort_descending ls) (sort_descending-IsDescending ls)

insert-perm : (l : Listener) (ls : List Listener) → Perm (insert l ls) (l ∷ ls)
unfolding insert
insert-perm l [] = Perm.rfl
insert-perm l (k ∷ ks) = elim (Bool-cases (below (priority l) (priority k))) [
  | inl up ↦ rw up (Perm.trans (Perm.cons k (insert-perm l ks)) (Perm.swap l k ks))
  | inr here ↦ rw here Perm.rfl
]

sort_descending-perm : (ls : List Listener) → Perm (sort_descending ls) ls
unfolding sort_descending
sort_descending-perm [] = Perm.rfl
sort_descending-perm (l ∷ ls) =
    Perm.trans (insert-perm l (sort_descending ls)) (Perm.cons l (sort_descending-perm ls))

-- The dispatch order has the selected listeners, each as often as selected.
pub dispatch_order-perm : (d : Dispatcher) (ls : List Listener) → Perm (dispatch_order d ls) ls
unfolding dispatch_order
dispatch_order-perm d ls = elim (Bool-cases d.enable_priorities) [
  | inl on ↦ rw on (sort_descending-perm ls)
  | inr off ↦ rw off Perm.rfl
]
