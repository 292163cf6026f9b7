-- ===== src/Bus/Consistent.antt =====
-- The invariant of a bus: its own table and the router's hold the same listeners.
pub mod Insert
pub mod Take
use eventful.Base.{
  Bool, true, false, ℕ, suc, ◌<◌, String, some, none, List, [], ◌∷◌, ◌++◌, map, ◌≡◌, ◌≢◌, refl, sym,
  ◌∙◌, arith, ap, ◌==◌, ◌||◌, if◌then◌else◌, str_eq, eq_iff, keep_if, All, Bool-cases, inl, inr,
  not, ◌&&◌,
}
use eventful.Base.Dict
use eventful.Base.Dict.{Dict, IsKeyed, get-put, get-del, put-IsKeyed, del-IsKeyed}
use eventful.Listener.{Listener}
use eventful.Router.{Router, listed, store, differs, differs_at, add_listener, remove_listener}
use eventful.Router.Pattern.{is_wildcard}
use eventful.Bus.Registry.{Bus, at, insert, holds, without, taken, remove_registration}
use eventful.Bus.Held.{
  IsDistinct, holds-snoc, holds-without, IsDistinct-snoc, IsDistinct-without, keep_if-differs,
}

-- The listeners of one pattern in the router's list.
abbrev pub under : String → List (String × Listener) → List Listener
under t ws = map (λ e. e.1) (keep_if (λ e. str_eq e.0 t) ws)

pub record IsConsistent (b : Bus) : Type 0 where
  pub exact :
      (t : String) → is_wildcard t ≡ false → Dict.get t b.router.listeners ≡ Dict.get t b.listeners
  pub pattern : (t : String) → is_wildcard t ≡ true → under t b.router.wildcard_listeners ≡ at t b
  pub patterns_only : All (λ e. is_wildcard e.0 ≡ true) b.router.wildcard_listeners
  pub no_patterns : (t : String) → is_wildcard t ≡ true → Dict.get t b.router.listeners ≡ none
  pub distinct : (t : String) → IsDistinct (at t b)
  pub apart : (t u : String) (i : ℕ) → holds i (at t b) ≡ true → holds i (at u b) ≡ true → t ≡ u
  pub old : (t : String) (i : ℕ) → holds i (at t b) ≡ true → i < b.next_ident
  pub filled : (t : String) → Dict.get t b.listeners ≢ some []
  pub keyed : IsKeyed b.listeners

module _ (topic : String) (l : Listener) (b : Bus) where
  pub at-insert :
      (t : String)
      → at t (insert topic l b) ≡ (if str_eq topic t then at topic b ++ l ∷ [] else at t b)
  unfolding insert
  at-insert t = rw get-put (elim (Bool-cases (str_eq topic t)) [ inl e ↦ rw e | inr n ↦ rw n ])

  pub get-store :
      (ls : List Listener) (d : Dict (List Listener)) (t : String)
      → Dict.get t (store topic ls d)
        ≡ (if str_eq topic t then elim ls [ [] ↦ none | k ∷ ks ↦ some (k ∷ ks) ] else Dict.get t d)
  unfolding store
  get-store [] d t = get-del topic t d
  get-store (k ∷ ks) d t = get-put topic t (k ∷ ks) d

  listed-store :
      (ls : List Listener) (d : Dict (List Listener)) (t : String)
      → listed (Dict.get t (store topic ls d))
        ≡ (if str_eq topic t then ls else listed (Dict.get t d))
  listed-store [] d t =
      rw get-store (elim (Bool-cases (str_eq topic t)) [ inl e ↦ rw e | inr n ↦ rw n ])
  listed-store (k ∷ ks) d t =
      rw get-store (elim (Bool-cases (str_eq topic t)) [ inl e ↦ rw e | inr n ↦ rw n ])

  pub at-taken :
      (t : String)
      → at t (taken topic l b) ≡ (if str_eq topic t then without l.ident (at topic b) else at t b)
  at-taken t = listed-store (without l.ident (at topic b)) b.listeners t

  pub store-IsKeyed :
      (ls : List Listener) (d : Dict (List Listener)) → IsKeyed d → IsKeyed (store topic ls d)
  unfolding store
  store-IsKeyed [] d u = del-IsKeyed topic d u
  store-IsKeyed (k ∷ ks) d u = put-IsKeyed topic (k ∷ ks) d u
