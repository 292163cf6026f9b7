-- ===== src/Router/Tests.antt =====
-- Runs of the router, and its theorems at concrete inputs.
use eventful.Base.{true, false, [], ◌∷◌, ◌++◌, ◌≡◌, ◌↔◌, refl, if◌then◌else◌, str_eq}
use eventful.Base.Dict
use eventful.Router.{Router, add_listener, remove_listener, candidates}
use eventful.Router.Pattern.{is_wildcard, matches_pattern, match_segments, segments}
use eventful.Router.Spec.{Covers, matches_pattern-iff_Covers}
use eventful.Router.Removal.{
  exact, by_pattern, IsFresh, candidates-add_listener, remove_listener-add_listener,
}
use eventful.Samples.{fresh_bus, logger, guard, greeter}

star_run : matches_pattern "order.created" "order.*" ≡ true
unfolding matches_pattern match_segments segments
star_run = refl

-- `**` takes no empty rest.
stars_run : matches_pattern "order" "order.**" ≡ false
unfolding matches_pattern match_segments segments
stars_run = refl

matches_pattern-iff_Covers_example :
    (matches_pattern "order.item.added" "order.**" ≡ true)
    ↔ Covers (segments "order.**") (segments "order.item.added")
matches_pattern-iff_Covers_example = matches_pattern-iff_Covers "order.item.added" "order.**"

abbrev two_routes : Router
two_routes = add_listener "order.*" guard (add_listener "order.created" logger (fresh_bus.router))

candidates-add_listener_example :
    candidates "order.created" (add_listener "order.**" greeter two_routes) ≡ (
      if is_wildcard "order.**"
      then candidates "order.created" two_routes
        ++ (if matches_pattern "order.created" "order.**" then greeter ∷ [] else [])
      else if str_eq "order.**" "order.created"
      then (exact "order.created" two_routes ++ greeter ∷ [])
        ++ by_pattern "order.created" two_routes
      else candidates "order.created" two_routes)
candidates-add_listener_example =
    candidates-add_listener "order.**" greeter two_routes "order.created"

greeter-IsFresh : IsFresh "order.created" greeter two_routes
unfolding add_listener Dict.get Dict.put is_wildcard
greeter-IsFresh = record { not_exact = (refl, tt); not_pattern = (refl, tt); not_empty = λ h. cc }

remove_listener-add_listener_example :
    remove_listener "order.created" greeter (add_listener "order.created" greeter two_routes)
    ≡ two_routes
remove_listener-add_listener_example =
    remove_listener-add_listener "order.created" greeter two_routes greeter-IsFresh
