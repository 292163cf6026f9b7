-- ===== src/Redis/Reach.antt =====
-- What every sequence of operations on a transport of src/eventful/transports/redis.py leads to.
use eventful.Base.{Bool, false, ℕ, String, Option, List, [], ◌∷◌, arith}
use eventful.Codec.{Codec}
use eventful.Event.{Event}
use eventful.Exceptions.{Exc}
use eventful.Redis.{State, Client, get_elem?, consumer, publish}
use eventful.Redis.Consume.{subscribe, close, finish, resume, consume, close_transport}
use eventful.Redis.Kept.{IsWhole, close-Kept, finish-Kept, resume-Kept}
use eventful.Redis.Steps.{
  consumer-Kept, publish-Kept, subscribe-Kept, consume-Kept, close_transport-Kept,
}

-- An operation of a client of the transport: also `subscribe`, `close` and the parts of `consume`, from
-- its beginning to a yield, from a yield to the next, and its end by the caller.
pub data Operation : Type 0 where
  make : (topic : String) → Operation
  send : Option Event → Operation
  subscribe_at close_at : ℕ → Operation
  consume_at : (i rounds : ℕ) → Operation
  resume_at : (i pubsub rounds : ℕ) → Operation
  finish_at : (i : ℕ) → Option Exc → Operation
  close_all_of_it : Operation

module _ {B D : Type 0} (codec : Codec B) (redis : Client B D) (prefix : String)
    (owns_client : Bool) where
  -- The state after an operation, whether it has returned or raised.
  unfoldable pub after : Operation → State D → State D
  unfolding consumer publish subscribe close consume resume finish close_transport
  after (make topic) s = (consumer codec redis prefix owns_client topic s).1
  after (send event) s = (publish codec redis prefix owns_client event s).1
  after (subscribe_at i) s = (subscribe codec redis prefix owns_client i s).1
  after (close_at i) s = (close codec redis prefix owns_client i s).1
  after (consume_at i rounds) s = (consume codec redis prefix owns_client i rounds s).1
  after (resume_at i p rounds) s = (resume codec redis prefix owns_client i p rounds s).1
  after (finish_at i active) s = (finish codec redis prefix owns_client i active s).1
  after close_all_of_it s = (close_transport codec redis prefix owns_client s).1

  unfoldable pub after_all : List Operation → State D → State D
  unfolding after
  after_all [] s = s
  after_all (op ∷ ops) s = after_all ops (after op s)

  -- `RedisTransport.__init__`
  abbrev pub new_transport : D → State D
  new_transport d = record {
    closed = false;
    publisher_closed = false;
    objects = [];
    consumers = [];
    client = d;
  }

  after-IsWhole :
      (op : Operation) (s : State D)
      → IsWhole codec redis prefix owns_client s
      → IsWhole codec redis prefix owns_client (after op s)
  unfolding after
  after-IsWhole (make topic) s h = (consumer-Kept codec redis prefix owns_client topic).along s h
  after-IsWhole (send event) s h = (publish-Kept codec redis prefix owns_client event).along s h
  after-IsWhole (subscribe_at i) s h = (subscribe-Kept codec redis prefix owns_client i).along s h
  after-IsWhole (close_at i) s h = (close-Kept codec redis prefix owns_client i).along s h
  after-IsWhole (consume_at i n) s h = (consume-Kept codec redis prefix owns_client i n).along s h
  after-IsWhole (resume_at i p n) s h = (resume-Kept codec redis prefix owns_client i p n).along s h
  after-IsWhole (finish_at i a) s h = (finish-Kept codec redis prefix owns_client i a).along s h
  after-IsWhole close_all_of_it s h =
      (close_transport-Kept codec redis prefix owns_client).along s h

  all-IsWhole :
      (ops : List Operation) (s : State D)
      → IsWhole codec redis prefix owns_client s
      → IsWhole codec redis prefix owns_client (after_all ops s)
  unfolding after_all
  all-IsWhole [] s h = h
  all-IsWhole (op ∷ ops) s h = all-IsWhole ops (after op s) (after-IsWhole op s h)

  -- After any operations on a new transport, whatever the client does and whichever of them raise: each
  -- consumer is open and owned by the transport, or it is closed and has no Pub/Sub object; and if the
  -- transport is closed, then all consumers are, and the publisher.
  pub after_all-IsWhole :
      (ops : List Operation) (d : D)
      → IsWhole codec redis prefix owns_client (after_all ops (new_transport d))
  unfolding get_elem?
  after_all-IsWhole ops d = all-IsWhole ops (new_transport d) (record {
    owned = record { owned = λ i c g. ground (arith, g) };
    finished = λ e. ground (arith, e);
  })
