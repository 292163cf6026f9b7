-- ===== src/Redis/Topics.antt =====
-- What a consumer of src/eventful/transports/redis.py yields, and when its iterator ends.
use eventful.Base.{
  Bool, true, false, ℕ, zero, suc, String, Option, none, some, some-injective, List, [], ◌∷◌, ◌≡◌,
  refl, sym, ◌∙◌, ap, arith, eq_iff, if◌then◌else◌, str_eq,
}
use eventful.Codec.{Codec}
use eventful.Event.{Event}
use eventful.Exceptions.{Result, ok, err, is_exception, transport_error, codec_error}
use eventful.Runtime.{Comp, pure, raise, attempt, modify, continue, ◌>>=◌, ◌>>◌}
use eventful.Redis.{
  State, Consumer, Client, Message, MessageType, message, other_type, get_elem?, change_at,
  on_client,
}
use eventful.Redis.Consume.{
  Progress, Round, leave, yields, ended, with_consumer, on_object, change, matched, decoded,
  received, polled, poll_open, poll, close, cleaned, shut as shut_consumer, release, follow, resume,
}

module _ {B D : Type 0} (codec : Codec B) (redis : Client B D) (prefix : String)
    (owns_client : Bool) where
  -- The event has the topic, and a decoded payload is the event.
  pub record IsDelivered (topic : String) (event : Event) : Type 0 where
    pub topic_of : event.type ≡ topic
    pub bytes : B
    pub decoded : codec.decode bytes ≡ ok event

  -- The result of a round, if it yields, is of this topic.
  record OfTopic (topic : String) (r : Result Round) : Type 0 where
    yielding : (event : Event) → r ≡ ok (yields event) → IsDelivered topic event

  matched-OfTopic :
      (topic : String) (e : Event) (bytes : B) (s : State D)
      → codec.decode bytes ≡ ok e
      → OfTopic topic (matched codec redis prefix owns_client topic e s).0
  matched-OfTopic topic e bytes s h = by_test (str_eq e.type topic) refl
    where
      by_test :
          (b : Bool)
          → str_eq e.type topic ≡ b
          → OfTopic topic ((if b then pure (yields e) else raise transport_error) s).0
      by_test true k = record {
        yielding = λ event g.
            let same : event ≡ e = cc in
            record {
              topic_of = ap (λ x. x.type) same ∙ grind (arith, eq_iff, k);
              bytes = bytes;
              decoded = h ∙ ap ok (sym same);
            };
      }
      by_test false k = record { yielding = λ event g. absurd cc }

  decoded-OfTopic :
      (topic : String) (bytes : B) (r : Result Event) (s : State D)
      → codec.decode bytes ≡ r
      → OfTopic topic (decoded codec redis prefix owns_client topic r s).0
  decoded-OfTopic topic bytes (ok e) s h = matched-OfTopic topic e bytes s h
  decoded-OfTopic topic bytes (err codec_error) s h = record { yielding = λ event g. absurd cc }
  decoded-OfTopic topic bytes (err e) s h = record { yielding = λ event g. absurd cc }

  by_type-OfTopic :
      (topic : String) (t : MessageType) (b : Option B) (s : State D)
      → OfTopic topic
          (received codec redis prefix owns_client topic
            (some (record { type = t; data_bytes = b }))
            s).0
  by_type-OfTopic topic message none s = record { yielding = λ event g. absurd cc }
  by_type-OfTopic topic message (some bytes) s =
      decoded-OfTopic topic bytes (codec.decode bytes) s refl
  by_type-OfTopic topic other_type b s = record { yielding = λ event g. absurd cc }

  failed-OfTopic :
      (topic : String) (o : Option Consumer) (s : State D)
      → OfTopic topic
          (on_object codec redis prefix owns_client o
            (λ c. if c.closed then pure leave else raise transport_error)
            s).0
  failed-OfTopic topic none s = record { yielding = λ event g. absurd cc }
  failed-OfTopic topic (some c) s = record { yielding = λ event g. ground (arith, g) }

  polled-OfTopic :
      (i : ℕ) (topic : String) (r : Result (Option (Message B))) (s : State D)
      → OfTopic topic (polled codec redis prefix owns_client i topic r s).0
  polled-OfTopic i topic (ok none) s = record { yielding = λ event g. absurd cc }
  polled-OfTopic i topic (ok (some m)) s = by_type-OfTopic topic m.type m.data_bytes s
  polled-OfTopic i topic (err e) s = by_class (is_exception e)
    where
      by_class :
          (b : Bool)
          → OfTopic topic
              ((if b
                  then with_consumer codec redis prefix owns_client i
                      (λ c. if c.closed then pure leave else raise transport_error)
                  else raise e)
                s).0
      by_class true = failed-OfTopic topic (get_elem? s.objects i) s
      by_class false = record { yielding = λ event g. absurd cc }

  object-OfTopic :
      (i p : ℕ) (c : Consumer) (s : State D)
      → OfTopic c.topic (poll_open codec redis prefix owns_client i p c s).0
  object-OfTopic i p c s = by_closed c.closed
    where
      by_closed :
          (b : Bool)
          → OfTopic c.topic
              ((if b
                  then pure leave
                  else (attempt (on_client codec redis prefix owns_client (redis.get_message p))
                      >>= polled codec redis prefix owns_client i c.topic))
                s).0
      by_closed true = record { yielding = λ event g. absurd cc }
      by_closed false =
          let run : Result (Option (Message B)) × D = redis.get_message p s.client in
          polled-OfTopic i c.topic run.0 (record s { client = run.1 })

  -- A round that yields an event, whatever the client does: the event has the topic of the consumer, and
  -- it is what the codec has decoded from bytes.
  pub poll-IsDelivered :
      (i p : ℕ) (c : Consumer) (s : State D) (event : Event)
      → get_elem? s.objects i ≡ some c
      → (poll codec redis prefix owns_client i p s).0 ≡ ok (yields event)
      → IsDelivered c.topic event
  unfolding poll
  poll-IsDelivered i p c s event g h =
      let at_object : on_object codec redis prefix owns_client (some c)
            (poll_open codec redis prefix owns_client i p) s
          ≡ with_consumer codec redis prefix owns_client i
              (poll_open codec redis prefix owns_client i p) s =
        ap
          (λ o.
            on_object codec redis prefix owns_client o
              (poll_open codec redis prefix owns_client i p) s)
          (sym g) in
      (object-OfTopic i p c s).yielding event (ap (λ run. run.0) at_object ∙ h)

  get_elem?-same :
      (f : Consumer → Consumer) (i : ℕ) (cs : List Consumer) (c : Consumer)
      → get_elem? cs i ≡ some c
      → get_elem? (change_at f i cs) i ≡ some (f c)
  unfolding get_elem? change_at
  get_elem?-same f i [] c h = ground (arith, h)
  get_elem?-same f zero (d ∷ cs) c h = ap some (ap f (some-injective d c h))
  get_elem?-same f (suc i) (d ∷ cs) c h = get_elem?-same f i cs c h

  -- Nothing is left to do for a closed consumer.
  shut_run :
      {A : Type 0} (o : Option Consumer) (c : Consumer) (m : Consumer → Comp (State D) A) (a : A)
      (s : State D)
      → o ≡ some c
      → c.closed ≡ true
      → on_object codec redis prefix owns_client o (λ d t. (if d.closed then pure a else m d) t) s
        ≡ (ok a, s)
  shut_run none c m a s h e = absurd cc
  shut_run (some d) c m a s h e =
      let closed : d.closed ≡ true = ap (λ x. x.closed) (some-injective d c h) ∙ e in
      ap (λ b. (if b then pure a else m d) s) closed

  -- The loop of `consume` ends in its next round when its consumer has been closed, whatever the client
  -- does: without an exception, and it changes nothing but that the consumer consumes no more.
  pub resume-ended :
      (i p rounds : ℕ) (c : Consumer) (s : State D)
      → get_elem? s.objects i ≡ some c
      → c.closed ≡ true
      → resume codec redis prefix owns_client i p (suc rounds) s ≡ (
        ok ended,
        record s { objects = change_at (λ d. record d { consuming = false }) i s.objects },
      )
  unfolding resume
  resume-ended i p rounds c s g e =
      let f : Consumer → Consumer = λ d. record d { consuming = false } in
      let t : State D = record s { objects = change_at f i s.objects } in
      let rest : Comp (State D) Progress = resume codec redis prefix owns_client i p rounds in
      let left : poll codec redis prefix owns_client i p s ≡ (ok leave, s) =
        shut_run (get_elem? s.objects i) c
          (λ d.
            attempt (on_client codec redis prefix owns_client (redis.get_message p))
            >>= polled codec redis prefix owns_client i d.topic)
          leave s g e in
      let shut : close codec redis prefix owns_client i t ≡ (ok tt, t) =
        shut_run (get_elem? t.objects i) (f c)
          (λ d.
            modify (change codec redis prefix owns_client shut_consumer i)
            >> release codec redis prefix owns_client i d.topic d.pubsub)
          tt t (get_elem?-same f i s.objects c g) e in
      ap (λ run. continue (ok run.0) (follow codec redis prefix owns_client i rest) run.1) left
      ∙ ap
          (λ run.
            continue (continue (ok run.0) (cleaned codec redis prefix owns_client none) run.1).0
              (λ _. pure ended)
              (continue (ok run.0) (cleaned codec redis prefix owns_client none) run.1).1)
          shut
