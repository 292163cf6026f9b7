-- ===== src/Router/Removal.antt =====
-- What `add_listener` and `remove_listener` of src/eventful/router.py do to the selection.
use mathlib.Core.List.{append_assoc, map-append}
use eventful.Base.{
  ap, ◌≡◌, ◌≢◌, refl, true, false, some, String, List, [], ◌∷◌, ◌++◌, map, ◌∙◌, arith, eq_iff,
  Bool-cases, Option-cases, inl, inr, All, keep_if, keep_if_snoc, keep_if-append, if◌then◌else◌,
  str_eq, ==_refl,
}
use eventful.Base.Dict
use eventful.Base.Dict.{Dict, get-put, put-put, put_same, get-put_self, del-put_fresh}
use eventful.Listener.{Listener}
use eventful.Router.{
  Router, listed, store, differs, differs_at, add_listener, remove_listener, candidates,
}
use eventful.Router.Pattern.{is_wildcard, matches_pattern}

abbrev pub exact : String → Router → List Listener
exact t r = listed (Dict.get t r.listeners)

abbrev pub by_pattern : String → Router → List Listener
by_pattern t r = map (λ e. e.1) (keep_if (λ e. matches_pattern t e.0) r.wildcard_listeners)

-- The listener is not registered under the topic, and no topic has an empty list.
pub record IsFresh (topic : String) (l : Listener) (r : Router) : Type 0 where
  pub not_exact : All (λ k. differs l k ≡ true) (exact topic r)
  pub not_pattern : All (λ e. differs_at topic l e ≡ true) r.wildcard_listeners
  pub not_empty : Dict.get topic r.listeners ≢ some []

module _ (topic : String) (l : Listener) (r : Router) where
  -- Registration puts a listener last among those of its kind: behind the other listeners of an
  -- exact topic, which only events of that type meet, or behind all pattern listeners, for the
  -- types that the pattern matches.
  pub candidates-add_listener :
      (t : String)
      → candidates t (add_listener topic l r) ≡ (
          if is_wildcard topic
          then candidates t r ++ (if matches_pattern t topic then l ∷ [] else [])
          else if str_eq topic t
          then (exact t r ++ l ∷ []) ++ by_pattern t r
          else candidates t r)
  unfolding candidates add_listener keep_if
  candidates-add_listener t = elim (Bool-cases (is_wildcard topic)) [
    | inl w ↦ rw w (patterns t)
    | inr w ↦ rw w (at_exact t)
  ]
    where
      patterns :
          (t : String)
          → exact t r
              ++ map
                  (λ e. e.1)
                  (keep_if (λ e. matches_pattern t e.0) (r.wildcard_listeners ++ (topic, l) ∷ []))
            ≡ (exact t r ++ by_pattern t r) ++ (if matches_pattern t topic then l ∷ [] else [])
      patterns t = simp (keep_if-append, map-append, append_assoc) (ground arith)

      at_exact :
          (t : String)
          → listed (Dict.get t (Dict.put topic (exact topic r ++ l ∷ []) r.listeners))
              ++ by_pattern t r
            ≡ (if str_eq topic t
                then (exact t r ++ l ∷ []) ++ by_pattern t r
                else exact t r ++ by_pattern t r)
      at_exact t = rw get-put (elim (Bool-cases (str_eq topic t)) [
        | inl same ↦ rw ((eq_iff topic t).0 same, (eq_iff t t).1 refl)
        | inr other ↦ rw other
      ])

  differs_self : differs l l ≡ false
  differs_self = rw ==_refl

  differs_at_self : differs_at topic l (topic, l) ≡ false
  differs_at_self = ground (arith, eq_iff topic topic)

  -- Storing the old list under its topic undoes a put.
  store-put :
      (d : Dict (List Listener)) (ls : List Listener)
      → Dict.get topic d ≢ some []
      → store topic (listed (Dict.get topic d)) (Dict.put topic ls d) ≡ d
  unfolding store
  store-put d ls h = elim (Option-cases (Dict.get topic d)) [
    | inl absent ↦ rw absent (del-put_fresh topic ls d absent)
    | inr ([], e) ↦ absurd (h e)
    | inr (k ∷ ks, e) ↦ rw e (put-put topic (k ∷ ks) ls d ∙ put_same topic (k ∷ ks) d e)
  ]

  add_exact :
      is_wildcard topic ≡ false
      → add_listener topic l r
        ≡ record r { listeners = Dict.put topic (exact topic r ++ l ∷ []) r.listeners }
  unfolding add_listener
  add_exact w = rw w

  remove_exact :
      (q : Router) (ls : List Listener)
      → is_wildcard topic ≡ false
      → Dict.get topic q.listeners ≡ some ls
      → remove_listener topic l q
        ≡ record q { listeners = store topic (keep_if (differs l) ls) q.listeners }
  unfolding remove_listener
  remove_exact q ls w e = rw (w, e)

  kept : IsFresh topic l r → keep_if (differs l) (exact topic r ++ l ∷ []) ≡ exact topic r
  kept fresh = keep_if_snoc (differs l) (exact topic r) l fresh.not_exact differs_self

  round_trip_pattern :
      IsFresh topic l r
      → is_wildcard topic ≡ true
      → remove_listener topic l (add_listener topic l r) ≡ r
  unfolding remove_listener add_listener
  round_trip_pattern fresh w = rw (
    w,
    keep_if_snoc (differs_at topic l) r.wildcard_listeners (topic, l) fresh.not_pattern
        differs_at_self,
  )

  -- Removing a listener that has just been added gives the router back, if the listener was not
  -- under the topic before and the topic had no empty list.
  pub remove_listener-add_listener :
      IsFresh topic l r → remove_listener topic l (add_listener topic l r) ≡ r
  remove_listener-add_listener fresh = elim (Bool-cases (is_wildcard topic)) [
    | inl w ↦ round_trip_pattern fresh w
    | inr w ↦
        let ls = exact topic r ++ l ∷ [] in
        let added = record r { listeners = Dict.put topic ls r.listeners } in
        rw (add_exact w, remove_exact added ls w (get-put_self topic ls r.listeners), kept fresh)
          (ap (λ d. record r { listeners = d }) (store-put r.listeners ls fresh.not_empty))
  ]
