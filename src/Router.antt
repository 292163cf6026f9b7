-- ===== src/Router.antt =====
-- src/eventful/router.py: the routing table and the selection of listeners for an event.
pub mod Pattern
pub mod Spec
pub mod Removal
pub mod Tests
use eventful.Base.{Bool, true, false, ℕ, String, Option, none, some, List, [], ◌∷◌, ◌++◌, map, not}
use eventful.Base.{◌&&◌, ◌==◌, str_eq, if◌then◌else◌, keep_if}
use eventful.Base.Dict
use eventful.Base.Dict.{Dict}
use eventful.Event.{Event}
use eventful.Exceptions.{Result, ok, err, ◌>>=◌}
use eventful.Listener.{Listener, matches}
use eventful.Router.Pattern.{is_wildcard, matches_pattern}

pub record Router : Type 0 where
  pub listeners : Dict (List Listener)
  pub wildcard_listeners : List (String × Listener)

abbrev pub empty : Router
empty = record { listeners = []; wildcard_listeners = [] }

-- `d.get(topic, [])`
abbrev pub listed : Option (List Listener) → List Listener
listed none = []
listed (some ls) = ls

-- `add_listener`
unfoldable pub add_listener : String → Listener → Router → Router
add_listener topic l r =
    if is_wildcard topic
    then record r { wildcard_listeners = r.wildcard_listeners ++ (topic, l) ∷ [] }
    else record r {
      listeners = Dict.put topic (listed (Dict.get topic r.listeners) ++ l ∷ []) r.listeners;
    }

-- `l != listener`
abbrev pub differs : Listener → Listener → Bool
differs l k = not (k.ident == l.ident)

abbrev pub differs_at : String → Listener → String × Listener → Bool
differs_at topic l e = not (str_eq e.0 topic && (e.1).ident == l.ident)

-- Storing a list under a topic, or deleting the topic when the list is empty.
unfoldable pub store : String → List Listener → Dict (List Listener) → Dict (List Listener)
store topic [] d = Dict.del topic d
store topic (l ∷ ls) d = Dict.put topic (l ∷ ls) d

-- `remove_listener`
unfoldable pub remove_listener : String → Listener → Router → Router
unfolding store
remove_listener topic l r =
    if is_wildcard topic
    then record r { wildcard_listeners = keep_if (differs_at topic l) r.wildcard_listeners }
    else elim (Dict.get topic r.listeners) [
      | none ↦ r
      | some ls ↦ record r { listeners = store topic (keep_if (differs l) ls) r.listeners }
    ]

-- The listeners of the exact topic, then those of the matching patterns, each in registration order.
unfoldable pub candidates : String → Router → List Listener
candidates t r =
    listed (Dict.get t r.listeners)
    ++ map (λ e. e.1) (keep_if (λ e. matches_pattern t e.0) r.wildcard_listeners)

-- `[l for l in listeners if l.matches(event)]`; a filter that raises ends the selection.
unfoldable pub select : Event → List Listener → Result (List Listener)
select e [] = ok []
select e (l ∷ ls) = do
  selected ← matches l e
  rest ← select e ls
  ok (if selected then l ∷ rest else rest)

-- `get_listeners`
unfoldable pub get_listeners : Event → Router → Result (List Listener)
unfolding candidates select
get_listeners e r = select e (candidates e.type r)
