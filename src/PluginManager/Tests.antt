-- ===== src/PluginManager/Tests.antt =====
-- A discovery, and its theorem at a concrete input.
use eventful.Base.{some, [], ◌∷◌, ◌≡◌, refl}
use eventful.Base.Dict
use eventful.Exceptions.{ok, err, contract_error}
use eventful.PluginManager.{Plugin, PluginManager, register, discover}
use eventful.PluginManager.Discovery.{IsNamed, Discovered, discover-Discovered}

abbrev audit : Plugin
audit = record { ident = 0; name = "audit" }

abbrev metrics : Plugin
metrics = record { ident = 1; name = "metrics" }

abbrev with_audit : PluginManager
with_audit = ("audit", audit) ∷ []

-- The second entry point has a name that is taken.
discover_run :
    discover (ok (some metrics) ∷ ok (some audit) ∷ []) with_audit
    ≡ (err contract_error, ("audit", audit) ∷ ("metrics", metrics) ∷ [])
unfolding discover register Dict.get Dict.put
discover_run = refl

with_audit-IsNamed : IsNamed with_audit
unfolding Dict.get
with_audit-IsNamed = record { keyed = (refl, tt); named = ((refl, refl), tt) }

discover-Discovered_example :
    Discovered with_audit (discover (ok (some metrics) ∷ ok (some audit) ∷ []) with_audit)
discover-Discovered_example =
    discover-Discovered (ok (some metrics) ∷ ok (some audit) ∷ []) with_audit with_audit-IsNamed
