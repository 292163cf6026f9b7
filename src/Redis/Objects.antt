-- ===== src/Redis/Objects.antt =====
-- The consumers of a transport of src/eventful/transports/redis.py, and which of them it owns.
use eventful.Base.{
  true, false, not, ℕ, zero, suc, none, some, some-injective, List, [], ◌∷◌, ◌++◌, ◌≡◌, ◌≢◌, String,
  refl, sym, ◌∙◌, ap, subst, ◌⊎◌, inl, inr, ◌==◌, arith, has, keep_if, length, Bool-cases,
}
use eventful.Redis.{State, Consumer, get_elem?, change_at}
use eventful.Redis.Consume.{shut}

pub change_at-none :
    (f : Consumer → Consumer) (i : ℕ) (cs : List Consumer)
    → get_elem? cs i ≡ none
    → change_at f i cs ≡ cs
unfolding get_elem? change_at
change_at-none f i [] h = refl
change_at-none f zero (c ∷ cs) h = ground (arith, h)
change_at-none f (suc i) (c ∷ cs) h = ap (λ ds. c ∷ ds) (change_at-none f i cs h)

pub change_at-same :
    (f : Consumer → Consumer) (i : ℕ) (cs : List Consumer) (c : Consumer)
    → get_elem? cs i ≡ some c
    → f c ≡ c
    → change_at f i cs ≡ cs
unfolding get_elem? change_at
change_at-same f i [] c h e = ground (arith, h)
change_at-same f zero (d ∷ cs) c h e =
    let q : d ≡ c = some-injective d c h in ap (λ x. x ∷ cs) (ap f q ∙ e ∙ sym q)
change_at-same f (suc i) (d ∷ cs) c h e = ap (λ ds. d ∷ ds) (change_at-same f i cs c h e)

-- The consumer that is changed, and the others.
pub get_elem?-change_at :
    (f : Consumer → Consumer) (i j : ℕ) (cs : List Consumer) (d : Consumer)
    → get_elem? (change_at f i cs) j ≡ some d
    → ((j ≡ i) × ((c : Consumer) × (get_elem? cs i ≡ some c) × (d ≡ f c)))
      ⊎ ((j ≢ i) × (get_elem? cs j ≡ some d))
unfolding get_elem? change_at
get_elem?-change_at f i j [] d h = ground (arith, h)
get_elem?-change_at f zero zero (c ∷ cs) d h = inl (refl, (c, refl, sym (some-injective (f c) d h)))
get_elem?-change_at f zero (suc j) (c ∷ cs) d h = inr (λ e. omega (arith, e), h)
get_elem?-change_at f (suc i) zero (c ∷ cs) d h = inr (λ e. omega (arith, e), h)
get_elem?-change_at f (suc i) (suc j) (c ∷ cs) d h = elim (get_elem?-change_at f i j cs d h) [
  | inl (e, found) ↦ inl (ap suc e, found)
  | inr (e, found) ↦ inr (λ k. e (omega (arith, k)), found)
]

pub get_elem?-append :
    (cs : List Consumer) (c d : Consumer) (j : ℕ)
    → get_elem? (cs ++ c ∷ []) j ≡ some d
    → (get_elem? cs j ≡ some d) ⊎ ((j ≡ length cs) × (d ≡ c))
unfolding get_elem?
get_elem?-append [] c d zero h = inr (refl, sym (some-injective c d h))
get_elem?-append [] c d (suc j) h = ground (arith, h)
get_elem?-append (b ∷ cs) c d zero h = inl h
get_elem?-append (b ∷ cs) c d (suc j) h = elim (get_elem?-append cs c d j h) [
  | inl found ↦ inl found
  | inr (e, same) ↦ inr (ap suc e, same)
]

pub has-keep_if :
    (i j : ℕ) (is : List ℕ) → j ≢ i → has j (keep_if (λ k. not (k == i)) is) ≡ has j is
unfolding has keep_if
has-keep_if i j [] h = refl
has-keep_if i j (k ∷ is) h = ground (arith, has-keep_if i j is h, h)

-- A consumer is closed and has no Pub/Sub object, or it is open and the transport has it in its set.
abbrev pub Owned : List ℕ → ℕ → Consumer → Type 0
Owned is i c = ((c.closed ≡ true) × (c.pubsub ≡ none)) ⊎ ((c.closed ≡ false) × (has i is ≡ true))

pub record AllOwned (is : List ℕ) (cs : List Consumer) : Type 0 where
  pub owned : (i : ℕ) (c : Consumer) → get_elem? cs i ≡ some c → Owned is i c

abbrev pub IsOwned : {D : Type 0} → State D → Type 0
IsOwned s = AllOwned s.consumers s.objects

-- The two lists have the same members besides `i`.
abbrev pub SameBut : ℕ → List ℕ → List ℕ → Type 0
SameBut i is js = (j : ℕ) → j ≢ i → has j js ≡ has j is

pub same_or_not : (i j : ℕ) → (j ≡ i) ⊎ (j ≢ i)
same_or_not i j = elim (Bool-cases (j == i)) [
  | inl same ↦ inl (ground (arith, same))
  | inr other ↦ inr (λ e. ground (arith, e, other))
]

Owned-SameBut :
    (i j : ℕ) (is js : List ℕ) (c : Consumer)
    → SameBut i is js
    → j ≢ i
    → Owned is j c
    → Owned js j c
Owned-SameBut i j is js c h e (inl o) = inl o
Owned-SameBut i j is js c h e (inr (k, l)) = inr (k, h j e ∙ l)

-- Without a consumer `i` that is open.
pub AllOwned-without :
    (i : ℕ) (is js : List ℕ) (cs : List Consumer)
    → SameBut i is js
    → ((c : Consumer) → get_elem? cs i ≡ some c → c.closed ≡ true)
    → AllOwned is cs
    → AllOwned js cs
AllOwned-without i is js cs h k o = record {
  owned = λ j c g. elim (same_or_not i j) [
    | inr other ↦ Owned-SameBut i j is js c h other (o.owned j c g)
    | inl same ↦ elim (o.owned j c g) [
      | inl done ↦ inl done
      | inr (opened, _) ↦
          let shut_down : c.closed ≡ true = k c (ap (get_elem? cs) (sym same) ∙ g) in
          ground (arith, opened, shut_down)
    ]
  ];
}

-- With the consumer `i` shut.
pub AllOwned-shut :
    (i : ℕ) (is js : List ℕ) (cs : List Consumer)
    → SameBut i is js
    → AllOwned is cs
    → AllOwned js (change_at shut i cs)
AllOwned-shut i is js cs h o = record {
  owned = λ j d g. elim (get_elem?-change_at shut i j cs d g) [
    | inl (_, (c, _, e)) ↦ inl (ap (λ x. x.closed) e, ap (λ x. x.pubsub) e)
    | inr (other, found) ↦ Owned-SameBut i j is js d h other (o.owned j d found)
  ];
}

-- A change of an open consumer that does not close it, or of one that leaves what is owned.
pub AllOwned-change :
    (f : Consumer → Consumer) (i : ℕ) (is : List ℕ) (cs : List Consumer)
    → ((c : Consumer) → get_elem? cs i ≡ some c → Owned is i c → Owned is i (f c))
    → AllOwned is cs
    → AllOwned is (change_at f i cs)
AllOwned-change f i is cs k o = record {
  owned = λ j d g. elim (get_elem?-change_at f i j cs d g) [
    | inl (same, (c, found, e)) ↦
        subst (λ n. Owned is n d) (sym same)
          (subst (Owned is i) (sym e) (k c found (o.owned i c found)))
    | inr (other, found) ↦ o.owned j d found
  ];
}

-- A new consumer in the set.
pub AllOwned-append :
    (topic : String) (is : List ℕ) (cs : List Consumer)
    → AllOwned is cs
    → AllOwned
        (length cs ∷ is)
        (cs ++ record { topic = topic; pubsub = none; closed = false; consuming = false } ∷ [])
unfolding has
AllOwned-append topic is cs o =
    let c : Consumer = record { topic = topic; pubsub = none; closed = false; consuming = false } in
    record {
      owned = λ j d g. elim (get_elem?-append cs c d j g) [
        | inl found ↦ elim (o.owned j d found) [
          | inl done ↦ inl done
          | inr (opened, member) ↦ inr (opened, ground (arith, member))
        ]
        | inr (same, e) ↦ inr (ap (λ x. x.closed) e, ground (arith, same))
      ];
    }

-- What keeps the consumers, and the set besides `i`.
pub record Spares {D : Type 0} (i : ℕ) (s t : State D) : Type 0 where
  pub closed : t.closed ≡ s.closed
  pub publisher : t.publisher_closed ≡ s.publisher_closed
  pub objects : t.objects ≡ s.objects
  pub others : SameBut i s.consumers t.consumers

pub Owned-none : (i : ℕ) (c : Consumer) → Owned [] i c → (c.closed ≡ true) × (c.pubsub ≡ none)
unfolding has
Owned-none i c (inl done) = done
Owned-none i c (inr (_, none_left)) = ground (arith, none_left)
