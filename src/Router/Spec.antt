-- ===== src/Router/Spec.antt =====
-- What a topic pattern means: each segment is matched by itself, a `*` by any one segment, and a
-- `**` by everything from the segment where it stands on.
use eventful.Base.{◌≡◌, refl, ◌⊎◌, inl, inr, ◌↔◌, true, ap, arith, eq_iff, Bool-cases}
use eventful.Base.{String, List, [], ◌∷◌, ◌++◌, str_eq, if◌then◌else◌}
use eventful.Router.Pattern.{segments, match_segments, matches_pattern}

-- Segment by segment, for lists of one length.
abbrev pub Pointwise : List String → List String → Type 0
Pointwise [] [] = Unit
Pointwise [] (e ∷ es) = ⊥
Pointwise (p ∷ ps) [] = ⊥
Pointwise (p ∷ ps) (e ∷ es) = ((p ≡ "*") ⊎ (p ≡ e)) × Pointwise ps es

-- A `**` in the pattern, with the segments before it matched and at least one segment left for it.
pub record CoversSuffix (ps es : List String) : Type 0 where
  pub before : List String
  pub after : List String
  pub front : List String
  pub first : String
  pub rest : List String
  pub pattern_split : ps ≡ before ++ "**" ∷ after
  pub event_split : es ≡ front ++ first ∷ rest
  pub fronts : Pointwise before front

abbrev pub Covers : List String → List String → Type 0
Covers ps es = Pointwise ps es ⊎ CoversSuffix ps es

module _ (p e : String) (ps es : List String) where
  CoversSuffix-cons : (p ≡ "*") ⊎ (p ≡ e) → CoversSuffix ps es → CoversSuffix (p ∷ ps) (e ∷ es)
  CoversSuffix-cons h c = record {
    before = p ∷ c.before;
    after = c.after;
    front = e ∷ c.front;
    first = c.first;
    rest = c.rest;
    pattern_split = ap (◌∷◌ p) c.pattern_split;
    event_split = ap (◌∷◌ e) c.event_split;
    fronts = (h, c.fronts);
  }

  Covers-cons : (p ≡ "*") ⊎ (p ≡ e) → Covers ps es → Covers (p ∷ ps) (e ∷ es)
  Covers-cons h (inl c) = inl (h, c)
  Covers-cons h (inr c) = inr (CoversSuffix-cons h c)

  Covers-stars : p ≡ "**" → Covers (p ∷ ps) (e ∷ es)
  Covers-stars h = inr (record {
    before = [];
    after = ps;
    front = [];
    first = e;
    rest = es;
    pattern_split = ap (λ q. q ∷ ps) h;
    event_split = refl;
    fronts = tt;
  })

match_segments-Covers : (ps es : List String) → match_segments ps es ≡ true → Covers ps es
unfolding match_segments
match_segments-Covers [] [] h = inl tt
match_segments-Covers [] (e ∷ es) h = cc
match_segments-Covers (p ∷ ps) [] h = cc
match_segments-Covers (p ∷ ps) (e ∷ es) h = elim (Bool-cases (str_eq p "**")) [
  | inl stars ↦ Covers-stars p e ps es ((eq_iff p "**").0 stars)
  | inr no_stars ↦
      Covers-cons p e ps es (ground (arith, eq_iff p "*", eq_iff p e))
        (match_segments-Covers ps es (ground arith))
]

Pointwise-match_segments : (ps es : List String) → Pointwise ps es → match_segments ps es ≡ true
unfolding match_segments
Pointwise-match_segments [] [] h = refl
Pointwise-match_segments [] (e ∷ es) h = absurd h
Pointwise-match_segments (p ∷ ps) [] h = absurd h
Pointwise-match_segments (p ∷ ps) (e ∷ es) h =
    ground (arith, eq_iff p "**", eq_iff p "*", eq_iff p e, Pointwise-match_segments ps es h.1)

split-match_segments :
    (before after front rest : List String) (first : String)
    → Pointwise before front
    → match_segments (before ++ "**" ∷ after) (front ++ first ∷ rest) ≡ true
unfolding match_segments
split-match_segments [] after [] rest first h = refl
split-match_segments [] after (e ∷ front) rest first h = absurd h
split-match_segments (p ∷ before) after [] rest first h = absurd h
split-match_segments (p ∷ before) after (e ∷ front) rest first h = ground (
  arith,
  eq_iff p "**",
  eq_iff p "*",
  eq_iff p e,
  split-match_segments before after front rest first h.1,
)

Covers-match_segments : (ps es : List String) → Covers ps es → match_segments ps es ≡ true
Covers-match_segments ps es (inl h) = Pointwise-match_segments ps es h
Covers-match_segments ps es (inr c) =
    rw (c.pattern_split, c.event_split)
      (split-match_segments c.before c.after c.front c.rest c.first c.fronts)

Pointwise-refl : (ps : List String) → Pointwise ps ps
Pointwise-refl [] = tt
Pointwise-refl (p ∷ ps) = (inr refl, Pointwise-refl ps)

-- A pattern matches an event type exactly when its segments cover those of the type: segment by
-- segment, with `*` for any segment, or up to a `**` that takes at least one remaining segment.
pub matches_pattern-iff_Covers :
    (event_type pattern : String)
    → (matches_pattern event_type pattern ≡ true) ↔ Covers (segments pattern) (segments event_type)
unfolding matches_pattern
matches_pattern-iff_Covers event_type pattern = (forwards, backwards)
  where
    same_covers : pattern ≡ event_type → Covers (segments pattern) (segments event_type)
    same_covers e = rw e (inl (Pointwise-refl (segments event_type)))

    forwards :
        (if str_eq pattern event_type
            then true
            else match_segments (segments pattern) (segments event_type))
          ≡ true
        → Covers (segments pattern) (segments event_type)
    forwards h = elim (Bool-cases (str_eq pattern event_type)) [
      | inl same ↦ same_covers ((eq_iff pattern event_type).0 same)
      | inr other ↦ match_segments-Covers _ _ (rw other at h)
    ]

    backwards :
        Covers (segments pattern) (segments event_type)
        → (if str_eq pattern event_type
            then true
            else match_segments (segments pattern) (segments event_type))
          ≡ true
    backwards c = elim (Bool-cases (str_eq pattern event_type)) [
      | inl same ↦ rw same
      | inr other ↦ rw other (Covers-match_segments _ _ c)
    ]
