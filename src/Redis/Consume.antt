-- ===== src/Redis/Consume.antt =====
-- src/eventful/transports/redis.py: the operations of a consumer, and the end of the transport.
use eventful.Base.{
  Bool, true, false, ℕ, zero, suc, String, Option, none, some, List, [], ◌∷◌, ◌||◌, str_eq,
  if◌then◌else◌,
}
use eventful.Codec.{Codec}
use eventful.Event.{Event}
use eventful.Exceptions.{
  Exc, Result, ok, err, is_exception, codec_error, transport_error, exception, base_exception,
}
use eventful.Runtime.{Comp, pure, raise, ◌>>=◌, ◌>>◌, attempt, modify}
use eventful.Redis.{
  State, Consumer, Client, Message, message, other_type, get_elem?, change_at, on_client,
  ensure_open, channel, discard_consumer,
}

abbrev pub is_base : String → Exc → Bool
is_base name (base_exception other) = str_eq other name
is_base name e = false

-- What a round of the loop of `consume` does.
pub data Round : Type 0 where
  leave again : Round
  yields : Event → Round

-- How far the iterator has come.
pub data Progress : Type 0 where
  waiting ended : Progress
  yielded : Event → Progress

abbrev pub shut : Consumer → Consumer
shut c = record c { closed = true; pubsub = none }

module _ {B D : Type 0} (codec : Codec B) (redis : Client B D) (prefix : String)
    (owns_client : Bool) where
  abbrev pub change : (Consumer → Consumer) → ℕ → State D → State D
  change f i s = record s { objects = change_at f i s.objects }

  -- An operation on a consumer; there is no object of another index.
  abbrev pub on_object :
      {A : Type 0} → Option Consumer → (Consumer → Comp (State D) A) → Comp (State D) A
  on_object none f = raise (exception "no such consumer")
  on_object (some c) f = f c

  abbrev pub with_consumer : {A : Type 0} → ℕ → (Consumer → Comp (State D) A) → Comp (State D) A
  with_consumer i f s = on_object (get_elem? s.objects i) f s

  -- The failure of `pubsub.subscribe`.
  abbrev pub subscribed : ℕ → ℕ → Result (Unit {0}) → Comp (State D) ℕ
  subscribed i p (ok _) = modify (change (λ c. record c { pubsub = some p }) i) >> pure p
  subscribed i p (err e) = do
    ignored ← attempt (on_client codec redis prefix owns_client (redis.close_pubsub p))
    raise (if is_base "CancelledError" e then e else transport_error)

  abbrev pub open_pubsub : ℕ → Consumer → Option ℕ → Comp (State D) ℕ
  open_pubsub i c (some p) = pure p
  open_pubsub i c none = do
    p ← on_client codec redis prefix owns_client redis.pubsub
    outcome ← attempt (
        on_client codec redis prefix owns_client
          (redis.subscribe p (channel codec redis prefix owns_client c.topic)))
    subscribed i p outcome

  abbrev pub subscribe_open : ℕ → Consumer → Comp (State D) ℕ
  subscribe_open i c = if c.closed then raise transport_error else open_pubsub i c c.pubsub

  -- `_subscribe`, under the lock of the consumer
  unfoldable pub subscribe : ℕ → Comp (State D) ℕ
  unfolding get_elem? change_at
  subscribe i = do ensure_open codec redis prefix owns_client; with_consumer i (subscribe_open i)

  -- `except Exception`: whether a step has failed.
  abbrev pub has_failed : Result (Unit {0}) → Comp (State D) Bool
  has_failed (ok _) = pure false
  has_failed (err e) = if is_exception e then pure true else raise e

  abbrev pub discard : ℕ → Comp (State D) (Unit {0})
  discard i = modify (discard_consumer codec redis prefix owns_client i)

  abbrev pub release : ℕ → String → Option ℕ → Comp (State D) (Unit {0})
  release i topic none = discard i
  release i topic (some p) = do
    first ← attempt (
        on_client codec redis prefix owns_client
          (redis.unsubscribe p (channel codec redis prefix owns_client topic)))
    unsubscribe_failed ← has_failed first
    second ← attempt (on_client codec redis prefix owns_client (redis.close_pubsub p))
    close_failed ← has_failed second
    discard i
    if unsubscribe_failed || close_failed then raise transport_error else pure tt

  abbrev pub close_open : ℕ → Consumer → Comp (State D) (Unit {0})
  close_open i c =
      if c.closed then pure tt else (modify (change shut i) >> release i c.topic c.pubsub)

  -- `RedisConsumer.close`
  unfoldable pub close : ℕ → Comp (State D) (Unit {0})
  unfolding get_elem? change_at
  close i = with_consumer i (close_open i)

  abbrev pub begin_consumer : ℕ → Consumer → Comp (State D) (Unit {0})
  begin_consumer i c =
      if c.closed || c.consuming
      then raise transport_error
      else modify (change (λ d. record d { consuming = true }) i)

  abbrev pub matched : String → Event → Comp (State D) Round
  matched topic event =
      if str_eq event.type topic then pure (yields event) else raise transport_error

  -- `except CodecError`
  abbrev pub decoded : String → Result Event → Comp (State D) Round
  decoded topic (ok event) = matched topic event
  decoded topic (err codec_error) = raise transport_error
  decoded topic (err e) = raise e

  abbrev pub payload : String → Option B → Comp (State D) Round
  payload topic none = raise transport_error
  payload topic (some bytes) = decoded topic (codec.decode bytes)

  abbrev pub received : String → Option (Message B) → Comp (State D) Round
  received topic none = pure again
  received topic (some m) = elim m.type [
    | message ↦ payload topic m.data_bytes
    | other_type ↦ pure again
  ]

  abbrev pub polled : ℕ → String → Result (Option (Message B)) → Comp (State D) Round
  polled i topic (ok m) = received topic m
  polled i topic (err e) =
      if is_exception e
      then with_consumer i (λ c. if c.closed then pure leave else raise transport_error)
      else raise e

  abbrev pub poll_open : ℕ → ℕ → Consumer → Comp (State D) Round
  poll_open i p c = if c.closed then pure leave else do
    outcome ← attempt (on_client codec redis prefix owns_client (redis.get_message p))
    polled i c.topic outcome

  -- One round of the loop.
  unfoldable pub poll : ℕ → ℕ → Comp (State D) Round
  unfolding get_elem?
  poll i p = with_consumer i (poll_open i p)

  abbrev pub reraise : Option Exc → Comp (State D) (Unit {0})
  reraise none = pure tt
  reraise (some e) = raise e

  -- A TransportError of the cleanup gives way to an active failure that is no `GeneratorExit`.
  abbrev pub cleaned : Option Exc → Result (Unit {0}) → Comp (State D) (Unit {0})
  cleaned active (ok _) = reraise active
  cleaned none (err e) = raise e
  cleaned (some failure) (err transport_error) =
      raise (if is_base "GeneratorExit" failure then transport_error else failure)
  cleaned (some failure) (err e) = raise e

  -- The `finally` clause.
  unfoldable pub finish : ℕ → Option Exc → Comp (State D) (Unit {0})
  unfolding close
  finish i active = do
    modify (change (λ c. record c { consuming = false }) i)
    outcome ← attempt (close i)
    cleaned active outcome

  abbrev pub follow : ℕ → Comp (State D) Progress → Result Round → Comp (State D) Progress
  follow i rest (ok leave) = finish i none >> pure ended
  follow i rest (ok again) = rest
  follow i rest (ok (yields event)) = pure (yielded event)
  follow i rest (err e) = finish i (some e) >> pure ended

  -- The loop from one yield to the next, for at most so many rounds; after them it still waits.
  unfoldable pub resume : ℕ → ℕ → ℕ → Comp (State D) Progress
  unfolding poll finish
  resume i p zero = pure waiting
  resume i p (suc rounds) = let rest = resume i p rounds in attempt (poll i p) >>= follow i rest

  abbrev pub started : ℕ → ℕ → Result ℕ → Comp (State D) Progress
  started i rounds (ok p) = resume i p rounds
  started i rounds (err e) = finish i (some e) >> pure ended

  -- `consume`, up to its first yield
  unfoldable pub consume : ℕ → ℕ → Comp (State D) Progress
  unfolding resume subscribe
  consume i rounds = do
    with_consumer i (begin_consumer i)
    outcome ← attempt (subscribe i)
    started i rounds outcome

  -- `asyncio.gather(..., return_exceptions=True)`, in the order of the list: whether a close has failed.
  unfoldable pub close_all : List ℕ → Comp (State D) Bool
  unfolding close
  close_all [] = pure false
  close_all (i ∷ is) = do
    outcome ← attempt (close i)
    failed ← close_all is
    pure (elim outcome [ ok _ ↦ failed | err e ↦ true ])

  abbrev pub close_client : Bool → Comp (State D) (Unit {0})
  close_client false = pure tt
  close_client true = do
    outcome ← attempt (on_client codec redis prefix owns_client redis.close_client)
    failed ← has_failed outcome
    if failed then raise transport_error else pure tt

  abbrev pub shut_down : State D → Comp (State D) (Unit {0})
  shut_down before = do
    modify (λ s. record s { closed = true })
    failed ← close_all before.consumers
    modify (λ s. record s { publisher_closed = true })
    close_client owns_client
    if failed then raise transport_error else pure tt

  -- `RedisTransport.close`
  unfoldable pub close_transport : Comp (State D) (Unit {0})
  unfolding close_all
  close_transport s = (if s.closed then pure tt else shut_down s) s
