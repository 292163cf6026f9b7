-- ===== src/Bus/Consistent/Insert.antt =====
-- Registration keeps the invariant.
use mathlib.Core.List.{map-append, append-nil}
use eventful.Base.{
  true, false, ℕ, suc, ◌<◌, String, some, none, List, [], ◌∷◌, ◌++◌, ◌≡◌, ◌≢◌, ◌∙◌, arith, ap, ◌==◌,
  ◌||◌, ◌&&◌, if◌then◌else◌, str_eq, eq_iff, keep_if, keep_if-append, All, All-append, Bool-cases,
  inl, inr,
}
use eventful.Base.Dict
use eventful.Base.Dict.{get-put, put-IsKeyed}
use eventful.Listener.{Listener}
use eventful.Router.{listed, add_listener}
use eventful.Router.Pattern.{is_wildcard}
use eventful.Bus.Registry.{Bus, at, insert, holds}
use eventful.Bus.Held.{holds-snoc, IsDistinct-snoc}
use eventful.Bus.Consistent.{IsConsistent, under, at-insert}

-- Topics of which one is a pattern and one is not are two topics.
pub kinds_differ :
    (t u : String) → is_wildcard t ≡ true → is_wildcard u ≡ false → str_eq t u ≡ false
kinds_differ t u w n = ground (arith, eq_iff t u)

pub kinds_flip : (t u : String) → is_wildcard t ≡ false → is_wildcard u ≡ true → str_eq t u ≡ false
kinds_flip t u n w = ground (arith, eq_iff t u)

snoc_filled : (l : Listener) (ls : List Listener) → ls ++ l ∷ [] ≢ []
snoc_filled l [] h = cc
snoc_filled l (k ∷ ls) h = cc

under-snoc :
    (t topic : String) (l : Listener) (ws : List (String × Listener))
    → under t (ws ++ (topic, l) ∷ []) ≡ under t ws ++ (if str_eq topic t then l ∷ [] else [])
unfolding keep_if
under-snoc t topic l ws = simp (keep_if-append, map-append) (ground arith)

module _ (topic : String) (l : Listener) (b : Bus) (c : IsConsistent b)
    (fresh : l.ident ≡ b.next_ident) where
  not_held : (t : String) → holds l.ident (at t b) ≡ false
  not_held t = elim (Bool-cases (holds l.ident (at t b))) [
    | inr n ↦ n
    | inl h ↦ absurd (omega (arith, c.old t l.ident h))
  ]

  exact' :
      (t : String)
      → is_wildcard t ≡ false
      → Dict.get t (insert topic l b).router.listeners ≡ Dict.get t (insert topic l b).listeners
  unfolding insert add_listener
  exact' t n = elim (Bool-cases (is_wildcard topic)) [
    | inl w ↦ rw (w, get-put, kinds_differ topic t w n) (c.exact t n)
    | inr plain ↦ rw (plain, get-put, get-put, c.exact topic plain, c.exact t n)
  ]

  pattern_kept :
      (t : String)
      → is_wildcard t ≡ true
      → under t (b.router.wildcard_listeners ++ (topic, l) ∷ []) ≡ at t (insert topic l b)
  pattern_kept t w =
      under-snoc t topic l b.router.wildcard_listeners
      ∙ ap (λ ls. ls ++ (if str_eq topic t then l ∷ [] else [])) (c.pattern t w)
      ∙ elim (Bool-cases (str_eq topic t)) [
        | inl e ↦ rw (at-insert, e, (eq_iff topic t).0 e)
        | inr n ↦ rw (at-insert, n) (append-nil (at t b))
      ]

  pattern' :
      (t : String)
      → is_wildcard t ≡ true
      → under t (insert topic l b).router.wildcard_listeners ≡ at t (insert topic l b)
  pattern' t w = elim (Bool-cases (is_wildcard topic)) [
    | inl v ↦ unfold insert add_listener in rw v (pattern_kept t w)
    | inr plain ↦
        rw (at-insert, kinds_flip topic t plain w)
          (unfold insert add_listener in rw plain (c.pattern t w))
  ]

  -- What is held after registration was held before, or is the new listener under its topic.
  pub held_after :
      (t : String) (i : ℕ)
      → holds i (at t (insert topic l b)) ≡ (holds i (at t b) || (str_eq topic t && (l.ident == i)))
  held_after t i = rw at-insert (elim (Bool-cases (str_eq topic t)) [
    | inl e ↦ rw (e, holds-snoc, (eq_iff topic t).0 e)
    | inr n ↦ rw n (ground arith)
  ])

  apart' :
      (t u : String) (i : ℕ)
      → holds i (at t (insert topic l b)) ≡ true
      → holds i (at u (insert topic l b)) ≡ true
      → t ≡ u
  apart' t u i p q = grind (
    arith,
    held_after t i,
    held_after u i,
    c.apart t u i,
    c.old t i,
    c.old u i,
    eq_iff topic t,
    eq_iff topic u,
    fresh,
  )

  old' : (t : String) (i : ℕ) → holds i (at t (insert topic l b)) ≡ true → i < suc b.next_ident
  old' t i p = ground (arith, held_after t i, c.old t i, eq_iff topic t, fresh)

  patterns_only' : All (λ e. is_wildcard e.0 ≡ true) (insert topic l b).router.wildcard_listeners
  unfolding insert add_listener
  patterns_only' = elim (Bool-cases (is_wildcard topic)) [
    | inl w ↦ rw w (
        All-append (λ e. is_wildcard e.0 ≡ true) b.router.wildcard_listeners ((topic, l) ∷ [])
          c.patterns_only (w, tt))
    | inr n ↦ rw n c.patterns_only
  ]

  no_patterns' :
      (t : String) → is_wildcard t ≡ true → Dict.get t (insert topic l b).router.listeners ≡ none
  unfolding insert add_listener
  no_patterns' t w = elim (Bool-cases (is_wildcard topic)) [
    | inl v ↦ rw v (c.no_patterns t w)
    | inr n ↦ rw (n, get-put, kinds_flip topic t n w) (c.no_patterns t w)
  ]

  filled' : (t : String) → Dict.get t (insert topic l b).listeners ≢ some []
  unfolding insert
  filled' t = rw get-put (elim (Bool-cases (str_eq topic t)) [
    | inl e ↦ rw e (λ h. snoc_filled l (at topic b) (ap listed h))
    | inr n ↦ rw n (c.filled t)
  ])

  -- Registering a new listener object keeps the bus consistent.
  pub insert-IsConsistent : IsConsistent (insert topic l b)
  insert-IsConsistent = record {
    exact = exact';
    pattern = pattern';
    patterns_only = patterns_only';
    no_patterns = no_patterns';
    distinct = λ t. rw at-insert (elim (Bool-cases (str_eq topic t)) [
      | inl e ↦ rw e (IsDistinct-snoc l (at topic b) (not_held topic) (c.distinct topic))
      | inr n ↦ rw n (c.distinct t)
    ]);
    apart = apart';
    old = λ t i p. unfold insert in old' t i p;
    filled = filled';
    keyed = unfold insert in put-IsKeyed topic (at topic b ++ l ∷ []) b.listeners c.keyed;
  }
