-- ===== src/Redis.antt =====
-- src/eventful/transports/redis.py: the transport, its publisher and its consumers.
pub mod Consume
pub mod Objects
pub mod Lifecycle
pub mod Shutdown
pub mod Kept
pub mod Steps
pub mod Reach
pub mod Topics
pub mod Tests
use eventful.Base.{
  Bool, true, false, ℕ, zero, suc, String, Option, none, some, List, [], ◌∷◌, ◌++◌, ◌==◌, str_eq,
  if◌then◌else◌, has, keep_if, not, length,
}
use Prim.Native.String.{◌++◌ as text_append}
use eventful.Codec.{Codec}
use eventful.Event.{Event}
use eventful.Exceptions.{
  Exc, Result, ok, err, is_exception, codec_error, transport_error, type_error, value_error,
  base_exception,
}
use eventful.Runtime.{Comp, pure, raise, ◌>>=◌, ◌>>◌, attempt, gets}

-- What `message["type"]` is: `"message"` or `b"message"`, or something else.
pub data MessageType : Type 0 where
  message other_type : MessageType

-- A message of the client; its `data` is `none` when it is no `bytes`.
pub record Message (B : Type 0) : Type 0 where
  pub type : MessageType
  pub data_bytes : Option B

-- `redis.asyncio`. A Pub/Sub object is named by a number; each step may raise.
pub record Client (B D : Type 0) : Type 0 where
  pub publish : (channel : String) → B → Comp D (Unit {0})
  pub pubsub : Comp D ℕ
  pub subscribe : ℕ → (channel : String) → Comp D (Unit {0})
  pub unsubscribe : ℕ → (channel : String) → Comp D (Unit {0})
  pub get_message : ℕ → Comp D (Option (Message B))
  pub close_pubsub : ℕ → Comp D (Unit {0})
  pub close_client : Comp D (Unit {0})

pub record Consumer : Type 0 where
  pub topic : String
  pub pubsub : Option ℕ
  pub closed : Bool
  pub consuming : Bool

-- `objects` are the consumers that have been made, in this order, each named by its index; `consumers`
-- is the set of those that the transport owns.
pub record State (D : Type 0) : Type 0 where
  pub closed : Bool
  pub publisher_closed : Bool
  pub objects : List Consumer
  pub consumers : List ℕ
  pub client : D

unfoldable pub get_elem? : List Consumer → ℕ → Option Consumer
get_elem? [] i = none
get_elem? (c ∷ cs) zero = some c
get_elem? (c ∷ cs) (suc i) = get_elem? cs i

unfoldable pub change_at : (Consumer → Consumer) → ℕ → List Consumer → List Consumer
change_at f i [] = []
change_at f zero (c ∷ cs) = f c ∷ cs
change_at f (suc i) (c ∷ cs) = c ∷ change_at f i cs

-- `except (CodecError, CancelledError): raise` and `except Exception: raise TransportError`
abbrev pub as_transport_error : Exc → Exc
as_transport_error codec_error = codec_error
as_transport_error e = if is_exception e then transport_error else e

module _ {B D : Type 0} (codec : Codec B) (redis : Client B D) (prefix : String)
    (owns_client : Bool) where
  abbrev pub on_client : {A : Type 0} → Comp D A → Comp (State D) A
  on_client c s = let (r, d) = c s.client in (r, record s { client = d })

  -- `_ensure_open`
  abbrev pub ensure_open : Comp (State D) (Unit {0})
  ensure_open s = (if s.closed then err transport_error else ok tt, s)

  -- `channel`
  abbrev pub channel : String → String
  channel topic = text_append prefix topic

  -- `_discard_consumer`
  abbrev pub discard_consumer : ℕ → State D → State D
  discard_consumer i s = record s { consumers = keep_if (λ j. not (j == i)) s.consumers }

  abbrev pub published : Result (Unit {0}) → Comp (State D) (Unit {0})
  published (ok _) = pure tt
  published (err e) = raise (as_transport_error e)

  abbrev pub send : Event → Result B → Comp (State D) (Unit {0})
  send event (err e) = raise e
  send event (ok payload) = do
    outcome ← attempt (on_client (redis.publish (channel event.type) payload))
    published outcome

  abbrev pub publish_event : Option Event → Comp (State D) (Unit {0})
  publish_event none = raise type_error
  publish_event (some event) =
      if str_eq event.type "" then raise transport_error else send event (codec.encode event)

  -- `RedisPublisher.publish`; an object that is no `Event` is `none`.
  unfoldable pub publish : Option Event → Comp (State D) (Unit {0})
  publish event = do
    λ s. (if s.publisher_closed then err transport_error else ok tt, s)
    ensure_open
    publish_event event

  -- `RedisTransport.publisher`
  unfoldable pub publisher : Comp (State D) (Unit {0})
  publisher = ensure_open

  abbrev pub new_consumer : String → Consumer
  new_consumer topic = record { topic = topic; pubsub = none; closed = false; consuming = false }

  abbrev pub add_consumer : String → Comp (State D) ℕ
  add_consumer topic s =
      let i = length s.objects in
      (
        ok i,
        record s { objects = s.objects ++ new_consumer topic ∷ []; consumers = i ∷ s.consumers },
      )

  -- `RedisTransport.consumer`
  unfoldable pub consumer : String → Comp (State D) ℕ
  consumer topic = do
    ensure_open
    λ s. (if str_eq topic "" then raise value_error else add_consumer topic) s
