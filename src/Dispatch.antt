-- ===== src/Dispatch.antt =====
-- src/eventful/dispatch.py: the order in which the selected listeners are invoked.
pub mod Order
pub mod Stable
pub mod Tests
use eventful.Base.{Bool, true, false, ℕ, List, [], ◌∷◌, ltb, if◌then◌else◌}
use eventful.Listener.{Listener, Priority, high, low}

pub record Dispatcher : Type 0 where
  pub enable_priorities : Bool
  pub propagation_enabled : Bool

-- `<` on priorities
abbrev pub below : Priority → Priority → Bool
below (high a) (high b) = ltb a b
below (high a) (low b) = false
below (low a) (high b) = true
below (low a) (low b) = ltb b a

abbrev pub priority : Listener → Priority
priority l = l.config.priority

-- Puts a listener before the first one of its own or a lower priority.
unfoldable pub insert : Listener → List Listener → List Listener
insert l [] = l ∷ []
insert l (k ∷ ks) =
    let rest = insert l ks in if below (priority l) (priority k) then k ∷ rest else l ∷ k ∷ ks

-- `sorted(listeners, key=priority, reverse=True)`, which keeps the order of equal priorities
unfoldable pub sort_descending : List Listener → List Listener
unfolding insert
sort_descending [] = []
sort_descending (l ∷ ls) = insert l (sort_descending ls)

-- `dispatch_order`
unfoldable pub dispatch_order : Dispatcher → List Listener → List Listener
unfolding sort_descending
dispatch_order d ls = if d.enable_priorities then sort_descending ls else ls
