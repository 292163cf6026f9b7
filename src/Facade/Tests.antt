-- ===== src/Facade/Tests.antt =====
-- Decorated listeners on the default bus.
use eventful.Base.{true, false, none, some, [], ◌≡◌, refl}
use eventful.Exceptions.{ok, err, configuration_error}
use eventful.Listener.{high}
use eventful.Config.Tests.{sample_config}
use eventful.Facade.{Globals, Registration, decorator, get_default_bus}

abbrev fresh : Globals
fresh = record { default_bus = none; config = none }

abbrev plain : Registration
plain = record { priority = high 0; tags = []; filter_fn = none; once = false }

abbrev one_decorated : Globals
unfolding decorator
one_decorated = (decorator (λ _. true) (ok sample_config) plain 11 "on_paid" none fresh).1.1

-- A decorator without a topic keeps the name of the first function: the second is registered under it.
second_name_run :
    (decorator
      (λ _. true)
      (ok sample_config)
      plain
      12
      "on_shipped"
      (some "on_paid")
      one_decorated).0
    ≡ some "on_paid"
unfolding decorator
second_name_run = refl

refused_run :
    (get_default_bus (λ _. true) (err configuration_error) fresh).0 ≡ err configuration_error
unfolding get_default_bus
refused_run = refl
