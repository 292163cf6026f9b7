-- ===== src/Bus/Consistent/Take.antt =====
-- Removal keeps the invariant.
use eventful.Base.{
  true, false, Option, ℕ, String, some, none, List, [], ◌∷◌, ◌≡◌, ◌≢◌, refl, sym, ◌∙◌, arith, ap,
  subst, ◌==◌, ◌&&◌, if◌then◌else◌, str_eq, eq_iff, keep_if, All, All-keep_if, Bool-cases,
  Option-cases, inl, inr,
}
use eventful.Base.Dict
use eventful.Listener.{Listener}
use eventful.Router.{differs, differs_at, remove_listener, store}
use eventful.Router.Pattern.{is_wildcard}
use eventful.Bus.Registry.{Bus, at, holds, without, taken}
use eventful.Bus.Held.{holds-without, IsDistinct-without, keep_if-differs}
use eventful.Bus.Consistent.{IsConsistent, under, at-taken, get-store, store-IsKeyed}
use eventful.Bus.Consistent.Insert.{kinds_differ, kinds_flip}

under-keep_if_self :
    (t : String) (l : Listener) (ws : List (String × Listener))
    → under t (keep_if (differs_at t l) ws) ≡ keep_if (differs l) (under t ws)
unfolding keep_if
under-keep_if_self t l [] = refl
under-keep_if_self t l ((u, k) ∷ ws) = elim (Bool-cases (str_eq u t)) [
  | inl s ↦ elim (Bool-cases (k.ident == l.ident)) [
    | inl gone ↦ rw (s, gone) (under-keep_if_self t l ws)
    | inr stays ↦ rw (s, stays, s) (ap (◌∷◌ k) (under-keep_if_self t l ws))
  ]
  | inr s ↦ rw (s, s) (under-keep_if_self t l ws)
]

under-keep_if_other :
    (t topic : String) (l : Listener) (ws : List (String × Listener))
    → str_eq topic t ≡ false
    → under t (keep_if (differs_at topic l) ws) ≡ under t ws
unfolding keep_if
under-keep_if_other t topic l [] n = refl
under-keep_if_other t topic l ((u, k) ∷ ws) n =
    ground (arith, under-keep_if_other t topic l ws n, eq_iff u topic, eq_iff u t, eq_iff topic t)

holds_somewhere :
    (i : ℕ) (t : String) (b : Bus)
    → holds i (at t b) ≡ true
    → (ls : List Listener) × (Dict.get t b.listeners ≡ some ls)
unfolding holds
holds_somewhere i t b h = elim (Option-cases (Dict.get t b.listeners)) [
  | inl absent ↦ absurd (ground arith)
  | inr there ↦ there
]

module _ (topic : String) (l : Listener) (b : Bus) (c : IsConsistent b)
    (there : holds l.ident (at topic b) ≡ true) where
  same_filter : keep_if (differs l) (at topic b) ≡ without l.ident (at topic b)
  same_filter = keep_if-differs l (at topic b) (c.distinct topic)

  router_plain :
      is_wildcard topic ≡ false
      → remove_listener topic l b.router ≡ record b.router {
        listeners = store topic (without l.ident (at topic b)) b.router.listeners;
      }
  unfolding remove_listener
  router_plain n =
      let (ls, e) = holds_somewhere l.ident topic b there in
      let kept = rw e at same_filter in rw (n, c.exact topic n, e) (rw kept)

  router_pattern :
      is_wildcard topic ≡ true
      → remove_listener topic l b.router ≡ record b.router {
        wildcard_listeners = keep_if (differs_at topic l) b.router.wildcard_listeners;
      }
  unfolding remove_listener
  router_pattern w = rw w

  exact' :
      (t : String)
      → is_wildcard t ≡ false
      → Dict.get t (taken topic l b).router.listeners ≡ Dict.get t (taken topic l b).listeners
  exact' t n = elim (Bool-cases (is_wildcard topic)) [
    | inl w ↦ rw (router_pattern w, get-store topic l b, kinds_differ topic t w n) (c.exact t n)
    | inr plain ↦ rw (router_plain plain) (
        get-store topic l b (without l.ident (at topic b)) b.router.listeners t
        ∙ rw (c.exact t n) refl
        ∙ sym (get-store topic l b (without l.ident (at topic b)) b.listeners t))
  ]

  at_pattern :
      (t : String)
      → is_wildcard t ≡ true
      → topic ≡ t
      → under t (keep_if (differs_at t l) b.router.wildcard_listeners) ≡ without l.ident (at t b)
  at_pattern t w e =
      under-keep_if_self t l b.router.wildcard_listeners
      ∙ ap (keep_if (differs l)) (c.pattern t w)
      ∙ subst (λ u. keep_if (differs l) (at u b) ≡ without l.ident (at u b)) e same_filter

  pattern' :
      (t : String)
      → is_wildcard t ≡ true
      → under t (taken topic l b).router.wildcard_listeners ≡ at t (taken topic l b)
  pattern' t w = elim (Bool-cases (is_wildcard topic)) [
    | inl v ↦
        rw (router_pattern v, at-taken)
          (elim (Bool-cases (str_eq topic t)) [
            | inl e ↦ rw (e, (eq_iff topic t).0 e) (at_pattern t w ((eq_iff topic t).0 e))
            | inr n ↦
                rw n (under-keep_if_other t topic l b.router.wildcard_listeners n ∙ c.pattern t w)
          ])
    | inr plain ↦ rw (router_plain plain, at-taken, kinds_flip topic t plain w) (c.pattern t w)
  ]

  pub held_after :
      (t : String) (i : ℕ)
      → holds i (at t (taken topic l b))
        ≡ (if str_eq topic t && (l.ident == i) then false else holds i (at t b))
  held_after t i = rw at-taken (elim (Bool-cases (str_eq topic t)) [
    | inl e ↦ rw (e, holds-without l.ident i (at topic b) (c.distinct topic), (eq_iff topic t).0 e)
    | inr n ↦ rw n
  ])

  held_before :
      (t : String) (i : ℕ) → holds i (at t (taken topic l b)) ≡ true → holds i (at t b) ≡ true
  held_before t i h = ground (arith, held_after t i)

  patterns_only' : All (λ e. is_wildcard e.0 ≡ true) (taken topic l b).router.wildcard_listeners
  patterns_only' = elim (Bool-cases (is_wildcard topic)) [
    | inl w ↦ rw (router_pattern w) (
        All-keep_if (λ e. is_wildcard e.0 ≡ true) (differs_at topic l) b.router.wildcard_listeners
          c.patterns_only)
    | inr n ↦ rw (router_plain n) c.patterns_only
  ]

  no_patterns' :
      (t : String) → is_wildcard t ≡ true → Dict.get t (taken topic l b).router.listeners ≡ none
  no_patterns' t w = elim (Bool-cases (is_wildcard topic)) [
    | inl v ↦ rw (router_pattern v) (c.no_patterns t w)
    | inr n ↦ rw (router_plain n, get-store topic l b, kinds_flip topic t n w) (c.no_patterns t w)
  ]

  filled' : (t : String) → Dict.get t (taken topic l b).listeners ≢ some []
  filled' t =
      rw (get-store topic l b (without l.ident (at topic b)) b.listeners t)
        (elim (Bool-cases (str_eq topic t)) [
          | inl e ↦ rw e (not_empty (without l.ident (at topic b)))
          | inr n ↦ rw n (c.filled t)
        ])
    where
      not_empty :
          (ls : List Listener)
          → ◌≢◌ {A = Option (List Listener)}
              (elim ls [ [] ↦ none | k ∷ ks ↦ some (k ∷ ks) ])
              (some [])
      not_empty [] h = cc
      not_empty (k ∷ ks) h = cc

  -- Removing a registered listener keeps the bus consistent.
  pub taken-IsConsistent : IsConsistent (taken topic l b)
  taken-IsConsistent = record {
    exact = exact';
    pattern = pattern';
    patterns_only = patterns_only';
    no_patterns = no_patterns';
    distinct = λ t. rw at-taken (elim (Bool-cases (str_eq topic t)) [
      | inl e ↦ rw e (IsDistinct-without l.ident (at topic b) (c.distinct topic))
      | inr n ↦ rw n (c.distinct t)
    ]);
    apart = λ t u i p q. c.apart t u i (held_before t i p) (held_before u i q);
    old = λ t i p. c.old t i (held_before t i p);
    filled = filled';
    keyed = store-IsKeyed topic l b (without l.ident (at topic b)) b.listeners c.keyed;
  }
