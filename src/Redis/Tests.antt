-- ===== src/Redis/Tests.antt =====
-- Runs of a transport whose connection is lost after some steps, and its theorems at concrete inputs.
use eventful.Base.{true, false, ℕ, zero, suc, none, some, List, [], ◌∷◌, ◌≡◌, refl}
use eventful.Codec.{Codec}
use eventful.Event.{Event, nat, end, new_event}
use eventful.Exceptions.{ok, err, exception, base_exception, transport_error}
use eventful.Runtime.{Comp}
use eventful.Redis.{State, Client, Consumer, message, get_elem?, change_at, new_consumer, publish}
use eventful.Redis.Consume.{ended, yielded, poll, resume, consume, close}
use eventful.Redis.Kept.{IsWhole}
use eventful.Redis.Reach.{
  Operation, make, send, consume_at, close_all_of_it, after_all, new_transport, after_all-IsWhole,
}
use eventful.Redis.Topics.{IsDelivered, poll-IsDelivered, resume-ended}

abbrev paid : Event
paid = new_event "order.paid" (nat 3) end []

-- The bytes are the event.
abbrev keeping : Codec Event
keeping = record { media_type = "application/json"; encode = λ e. ok e; decode = λ e. ok e }

-- The connection is lost after so many steps.
abbrev step : {A : Type 0} → A → Comp ℕ A
step a zero = (err (exception "ConnectionError"), zero)
step a (suc n) = (ok a, n)

abbrev lossy : Client Event ℕ
lossy = record {
  publish = λ topic payload. step tt;
  pubsub = step 7;
  subscribe = λ p topic. step tt;
  unsubscribe = λ p topic. step tt;
  get_message = λ p. step (some (record { type = message; data_bytes = some paid }));
  close_pubsub = λ p. step tt;
  close_client = step tt;
}

abbrev started : List Operation
started = make "order.paid" ∷ send (some paid) ∷ consume_at 0 2 ∷ []

-- A consumer of the topic yields the event.
consume_run :
    (consume keeping lossy "eventful:" true 0 2 (
      after_all keeping lossy "eventful:" true
        (make "order.paid" ∷ [])
        (new_transport keeping lossy "eventful:" true 9))).0
    ≡ ok (yielded paid)
unfolding consume after_all new_event
consume_run = refl

-- One of another topic raises in its `finally` clause after a failed cleanup.
other_topic_run :
    (consume keeping lossy "eventful:" true 0 2 (
      after_all keeping lossy "eventful:" true
        (make "order.shipped" ∷ [])
        (new_transport keeping lossy "eventful:" true 3))).0
    ≡ err transport_error
unfolding consume after_all new_event
other_topic_run = refl

closed_publish_run :
    (publish keeping lossy "eventful:" true (some paid) (
      after_all keeping lossy "eventful:" true
        (close_all_of_it ∷ [])
        (new_transport keeping lossy "eventful:" true 3))).0
    ≡ err transport_error
unfolding publish after_all
closed_publish_run = refl

-- The connection is lost in the middle of the close.
after_all-IsWhole_example : IsWhole keeping lossy "eventful:" true (
    after_all keeping lossy "eventful:" true started
      (new_transport keeping lossy "eventful:" true 5))
after_all-IsWhole_example = after_all-IsWhole keeping lossy "eventful:" true started 5

abbrev listening : Consumer
listening = record (new_consumer keeping lossy "eventful:" true "order.paid") {
  pubsub = some 7;
  consuming = true;
}

abbrev live : State ℕ
live = record {
  closed = false;
  publisher_closed = false;
  objects = listening ∷ [];
  consumers = 0 ∷ [];
  client = 4;
}

poll-IsDelivered_example : IsDelivered keeping lossy "eventful:" true "order.paid" paid
unfolding get_elem? poll new_event
poll-IsDelivered_example =
    poll-IsDelivered keeping lossy "eventful:" true 0 7 listening live paid refl refl

abbrev shut_listening : Consumer
shut_listening = record listening { closed = true; pubsub = none }

abbrev dead : State ℕ
dead = record live { objects = shut_listening ∷ [] }

resume-ended_example : resume keeping lossy "eventful:" true 0 7 (suc 4) dead ≡ (
  ok ended,
  record dead { objects = change_at (λ d. record d { consuming = false }) 0 dead.objects },
)
unfolding get_elem?
resume-ended_example =
    resume-ended keeping lossy "eventful:" true 0 7 4 shut_listening dead refl refl

-- The second close of a consumer whose first close was cancelled in `unsubscribe`: it returns, and the
-- Pub/Sub object has not been closed.
abbrev cancelled : Client Event ℕ
cancelled = record lossy {
  unsubscribe = λ p topic n. (err (base_exception "CancelledError"), n);
  close_pubsub = λ p n. (ok tt, 99);
}

abbrev after_cancelled : State ℕ
unfolding close
after_cancelled = (close keeping cancelled "eventful:" true 0 live).1

leaked_twice_run :
    (close keeping cancelled "eventful:" true 0 after_cancelled)
    ≡ (ok tt, record live { objects = record listening { closed = true; pubsub = none } ∷ [] })
unfolding close get_elem? change_at
leaked_twice_run = refl
