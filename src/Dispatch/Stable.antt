-- ===== src/Dispatch/Stable.antt =====
-- Listeners of one priority keep their order of registration, and this with the falling priorities
-- determines the order.
use mathlib.Core.List.{cons≢nil, head-eq_of_cons-eq, tail-eq_of_cons-eq}
use eventful.Base.{
  true, false, Bool, List, [], ◌∷◌, arith, ◌≡◌, ◌↔◌, refl, sym, ◌∙◌, Bool-cases, inl, inr, keep_if,
  not, ◌&&◌, ap, subst,
}
use eventful.Listener.{Listener, Priority, high, low}
use eventful.Dispatch.{Dispatcher, below, priority, insert, sort_descending, dispatch_order}
use eventful.Dispatch.Order.{Tops, IsDescending, sort_descending-IsDescending}

unfoldable pub same : Priority → Priority → Bool
same a b = not (below a b) && not (below b a)

abbrev pub with_priority : Priority → List Listener → List Listener
with_priority p = keep_if (λ l. same p (priority l))

same_refl : (p : Priority) → same p p ≡ true
unfolding same
same_refl (high a) = ground arith
same_refl (low a) = ground arith

-- Two listeners of which one ranks above the other have not both the priority `p`.
same_apart : (p a b : Priority) → below a b ≡ true → same p a ≡ true → same p b ≡ false
unfolding same
same_apart (high p) (high a) (high b) h s = ground arith
same_apart _ _ _ h s = ground arith

same_above : (p a b : Priority) → below a p ≡ true → below a b ≡ false → same p b ≡ false
unfolding same
same_above (high p) (high a) (high b) h s = ground arith
same_above _ _ _ h s = ground arith

same-below : (p a : Priority) → below a p ≡ true → same p a ≡ false
unfolding same
same-below p a h = ground arith

same_of_neither : (a b : Priority) → below a b ≡ false → below b a ≡ false → same a b ≡ true
unfolding same
same_of_neither a b h k = rw (h, k)

with_priority-insert :
    (p : Priority) (l : Listener) (ls : List Listener)
    → with_priority p (insert l ls) ≡ with_priority p (l ∷ ls)
unfolding insert keep_if
with_priority-insert p l [] = refl
with_priority-insert p l (k ∷ ks) = elim (Bool-cases (below (priority l) (priority k))) [
  | inl up ↦ elim (Bool-cases (same p (priority l))) [
    | inl s ↦
        rw (up, s, same_apart p (priority l) (priority k) up s) (with_priority-insert p l ks ∙ rw s)
    | inr d ↦
        rw (up, d)
          (elim (Bool-cases (same p (priority k))) [
            | inl s ↦ rw s (ap (◌∷◌ k) (with_priority-insert p l ks ∙ rw d))
            | inr e ↦ rw e (with_priority-insert p l ks ∙ rw d)
          ])
  ]
  | inr here ↦ rw here
]

with_priority-cons :
    (p : Priority) (l : Listener) (ks ls : List Listener)
    → with_priority p ks ≡ with_priority p ls
    → with_priority p (l ∷ ks) ≡ with_priority p (l ∷ ls)
unfolding keep_if
with_priority-cons p l ks ls h = rw h

-- Among the listeners of any one priority the order is that of the selection.
pub with_priority-sort_descending :
    (p : Priority) (ls : List Listener) → with_priority p (sort_descending ls) ≡ with_priority p ls
unfolding sort_descending
with_priority-sort_descending p [] = refl
with_priority-sort_descending p (l ∷ ls) =
    with_priority-insert p l (sort_descending ls)
    ∙ with_priority-cons p l (sort_descending ls) ls (with_priority-sort_descending p ls)

-- No listener of a priority above that of the first.
none_above :
    (p : Priority) (x : Listener) (xs : List Listener)
    → below (priority x) p ≡ true
    → Tops x xs
    → with_priority p xs ≡ []
unfolding keep_if
none_above p x [] h t = refl
none_above p x (y ∷ ys) h t =
    rw (same_above p (priority x) (priority y) h t.0) (none_above p x ys h t.1)

with_priority-head :
    (x : Listener) (xs : List Listener)
    → with_priority (priority x) (x ∷ xs) ≡ x ∷ with_priority (priority x) xs
unfolding keep_if
with_priority-head x xs = rw same_refl

with_priority_skip :
    (p : Priority) (x : Listener) (xs : List Listener)
    → same p (priority x) ≡ false
    → with_priority p (x ∷ xs) ≡ with_priority p xs
unfolding keep_if
with_priority_skip p x xs h = rw h

abbrev pub SameRanks : List Listener → List Listener → Type 0
SameRanks xs ys = (p : Priority) → with_priority p xs ≡ with_priority p ys

module _ (x y : Listener) (xs ys : List Listener) (ranks : SameRanks (x ∷ xs) (y ∷ ys)) where
  -- The first of one list cannot rank above the first of the other.
  first_not_above : Tops x xs → below (priority x) (priority y) ≡ false
  first_not_above t = elim (Bool-cases (below (priority x) (priority y))) [
    | inr no_more ↦ no_more
    | inl up ↦
        absurd (cons≢nil (sym (with_priority-head y ys) ∙ sym (ranks (priority y)) ∙ above up))
  ]
    where
      above : below (priority x) (priority y) ≡ true → with_priority (priority y) (x ∷ xs) ≡ []
      above up =
          with_priority_skip (priority y) x xs (same-below (priority y) (priority x) up)
          ∙ none_above (priority y) x xs up t

with_priority_take :
    (p : Priority) (x : Listener) (xs : List Listener)
    → same p (priority x) ≡ true
    → with_priority p (x ∷ xs) ≡ x ∷ with_priority p xs
unfolding keep_if
with_priority_take p x xs h = rw h

SameRanks-symm : (xs ys : List Listener) → SameRanks xs ys → SameRanks ys xs
SameRanks-symm xs ys h = λ p. sym (h p)

SameRanks-head :
    (x y : Listener) (xs ys : List Listener)
    → SameRanks (x ∷ xs) (y ∷ ys)
    → Tops x xs
    → Tops y ys
    → x ≡ y
SameRanks-head x y xs ys ranks tx ty = head-eq_of_cons-eq (
    sym (with_priority-head x xs)
    ∙ ranks (priority x)
    ∙ with_priority_take (priority x) y ys (
        same_of_neither (priority x) (priority y) (first_not_above x y xs ys ranks tx)
          (first_not_above y x ys xs (SameRanks-symm (x ∷ xs) (y ∷ ys) ranks) ty)))

SameRanks-tail :
    (x : Listener) (xs ys : List Listener) → SameRanks (x ∷ xs) (x ∷ ys) → SameRanks xs ys
SameRanks-tail x xs ys ranks p = elim (Bool-cases (same p (priority x))) [
  | inl s ↦
      tail-eq_of_cons-eq (sym (with_priority_take p x xs s) ∙ ranks p ∙ with_priority_take p x ys s)
  | inr d ↦ sym (with_priority_skip p x xs d) ∙ ranks p ∙ with_priority_skip p x ys d
]

SameRanks-nil : (y : Listener) (ys : List Listener) → ¬ SameRanks [] (y ∷ ys)
unfolding keep_if
SameRanks-nil y ys ranks = cons≢nil (sym (with_priority-head y ys) ∙ sym (ranks (priority y)))

descending_unique :
    (xs ys : List Listener) → IsDescending xs → IsDescending ys → SameRanks xs ys → xs ≡ ys
descending_unique [] [] dx dy ranks = refl
descending_unique [] (y ∷ ys) dx dy ranks = absurd (SameRanks-nil y ys ranks)
descending_unique (x ∷ xs) [] dx dy ranks =
    absurd (SameRanks-nil x xs (SameRanks-symm (x ∷ xs) [] ranks))
descending_unique (x ∷ xs) (y ∷ ys) dx dy ranks =
    let e = SameRanks-head x y xs ys ranks dx.0 dy.0 in
    let tails = SameRanks-tail x xs ys (subst (λ z. SameRanks (x ∷ xs) (z ∷ ys)) (sym e) ranks) in
    ap (λ z. z ∷ xs) e ∙ ap (◌∷◌ y) (descending_unique xs ys dx.1 dy.1 tails)

-- With priorities enabled, a list is the dispatch order of the selected listeners exactly when the
-- priorities fall along it and the listeners of each one priority stand in the order of selection.
pub dispatch_order_iff :
    (d : Dispatcher) (ls order : List Listener)
    → d.enable_priorities ≡ true
    → (dispatch_order d ls ≡ order) ↔ (IsDescending order × SameRanks order ls)
unfolding dispatch_order
dispatch_order_iff d ls order on = rw on (
  λ e. rw (← e) (sort_descending-IsDescending ls, λ p. with_priority-sort_descending p ls),
  λ h.
      descending_unique (sort_descending ls) order (sort_descending-IsDescending ls) h.0
        (λ p. with_priority-sort_descending p ls ∙ sym (h.1 p)),
)
