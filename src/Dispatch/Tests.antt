-- ===== src/Dispatch/Tests.antt =====
-- Runs of the dispatch order, and its theorems at concrete inputs.
use mathlib.Core.List.{Perm}
use eventful.Base.{List, [], ◌∷◌, ◌≡◌, ◌↔◌, refl}
use eventful.Listener.{Listener}
use eventful.Dispatch.{dispatch_order, sort_descending, insert}
use eventful.Dispatch.Order.{IsDescending, dispatch_order-perm}
use eventful.Dispatch.Stable.{SameRanks, dispatch_order_iff}
use eventful.Samples.{by_priority, logger, guard, greeter, failing}

abbrev selected : List Listener
selected = logger ∷ greeter ∷ guard ∷ failing ∷ []

abbrev ordered : List Listener
ordered = failing ∷ guard ∷ logger ∷ greeter ∷ []

order_run : dispatch_order by_priority selected ≡ ordered
unfolding dispatch_order sort_descending insert
order_run = refl

dispatch_order-perm_example : Perm (dispatch_order by_priority selected) selected
dispatch_order-perm_example = dispatch_order-perm by_priority selected

dispatch_order_iff_example :
    (dispatch_order by_priority selected ≡ ordered)
    ↔ (IsDescending ordered × SameRanks ordered selected)
dispatch_order_iff_example = dispatch_order_iff by_priority selected ordered refl
