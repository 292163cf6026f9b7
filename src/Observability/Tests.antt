-- ===== src/Observability/Tests.antt =====
-- A run of the provider.
use eventful.Base.{[], ◌∷◌, ◌≡◌, refl, map}
use eventful.Event.{nat, end, new_event}
use eventful.Observability.{new_provider, record_event, records}

two_events_run :
    map
      (λ o. o.event_type)
      (records (
        record_event (new_event "order.shipped" (nat 2) end []) [] (
          record_event
            (new_event "order.paid" (nat 1) end [])
            (("mode", nat 0) ∷ [])
            new_provider)))
    ≡ "order.paid" ∷ "order.shipped" ∷ []
unfolding record_event new_event
two_events_run = refl
