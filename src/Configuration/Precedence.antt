-- ===== src/Configuration/Precedence.antt =====
-- Which source of src/eventful/configuration/__init__.py gives the value of a key.
use eventful.Base.{
  Bool, true, false, String, Option, none, some, List, [], ◌∷◌, map, ◌≡◌, refl, sym, ◌∙◌, ap, arith,
  eq_iff, str_eq, if◌then◌else◌, All,
}
use eventful.Base.Dict
use eventful.Base.Dict.{Dict, IsKeyed, get-put}
use eventful.Event.{Value}
use eventful.Exceptions.{Result, ok}
use eventful.Configuration.{update, merge_from, load_composite}

-- The first of two options that there is.
abbrev pub or_else : Option Value → Option Value → Option Value
or_else (some v) other = some v
or_else none other = other

or_else_assoc : (a b c : Option Value) → or_else a (or_else b c) ≡ or_else (or_else a b) c
or_else_assoc (some v) b c = refl
or_else_assoc none b c = refl

-- The value of the last mapping that has the key.
unfoldable pub last_value : String → List (Dict Value) → Option Value
last_value key [] = none
last_value key (d ∷ ds) = or_else (last_value key ds) (Dict.get key d)

put-get :
    (key k : String) (v : Value) (d : Dict Value)
    → Dict.get key (Dict.put k v d)
      ≡ or_else (if str_eq k key then some v else none) (Dict.get key d)
put-get key k v d = ground (arith, get-put k key v d)

same_key-order :
    (b : Bool) (v : Value) (there before : Option Value)
    → (b ≡ true → there ≡ none)
    → or_else there (or_else (if b then some v else none) before)
      ≡ or_else (if b then some v else there) before
same_key-order false v there before h = refl
same_key-order true v there before h = ap (λ o. or_else o (some v)) (h refl)

get-update :
    (key : String) (d e : Dict Value)
    → IsKeyed e
    → Dict.get key (update d e) ≡ or_else (Dict.get key e) (Dict.get key d)
unfolding update Dict.get
get-update key d [] u = refl
get-update key d ((k, v) ∷ e) u =
    get-update key (Dict.put k v d) e u.1
    ∙ ap (or_else (Dict.get key e)) (put-get key k v d)
    ∙ same_key-order (str_eq k key) v (Dict.get key e) (Dict.get key d)
        (λ h. ap (λ j. Dict.get j e) (sym (grind (arith, eq_iff k key, h))) ∙ u.0)

-- The run has returned a mapping that has, for each key, this value.
pub record Merged (value : String → Option Value) (r : Result (Dict Value)) : Type 0 where
  pub merged : Dict Value
  pub returned : r ≡ ok merged
  pub values : (key : String) → Dict.get key merged ≡ value key

merge_from-Merged :
    (ds : List (Dict Value)) (before : Dict Value)
    → All IsKeyed ds
    → Merged
        (λ key. or_else (last_value key ds) (Dict.get key before))
        (merge_from (map ok ds) before)
unfolding merge_from last_value
merge_from-Merged [] before u = record { merged = before; returned = refl; values = λ _. refl }
merge_from-Merged (d ∷ ds) before u =
    let m : Merged (λ key. or_else (last_value key ds) (Dict.get key (update before d)))
        (merge_from (map ok ds) (update before d)) =
      merge_from-Merged ds (update before d) u.1 in
    record {
      merged = m.merged;
      returned = m.returned;
      values = λ key.
          m.values key
          ∙ ap (or_else (last_value key ds)) (get-update key before d u.0)
          ∙ or_else_assoc (last_value key ds) (Dict.get key d) (Dict.get key before);
    }

or_else-none : (a : Option Value) → or_else a none ≡ a
or_else-none (some v) = refl
or_else-none none = refl

-- Sources that all load a `dict`: the composition loads a mapping in which each key has the value that
-- the last source with the key gives it, and in which no other key is.
pub load_composite-Merged :
    (ds : List (Dict Value))
    → All IsKeyed ds
    → Merged (λ key. last_value key ds) (load_composite (map ok ds))
unfolding load_composite Dict.get
load_composite-Merged ds u =
    let m : Merged (λ key. or_else (last_value key ds) none) (merge_from (map ok ds) []) =
      merge_from-Merged ds [] u in
    record {
      merged = m.merged;
      returned = m.returned;
      values = λ key. m.values key ∙ or_else-none (last_value key ds);
    }
