-- ===== src/Redis/Steps.antt =====
-- Sequences of operations on a transport of src/eventful/transports/redis.py.
use eventful.Base.{
  Bool, true, false, ℕ, String, Option, none, some, some-injective, ◌≡◌, refl, sym, ◌∙◌, ap, inl,
  inr, ◌||◌, str_eq, arith, if◌then◌else◌,
}
use eventful.Codec.{Codec}
use eventful.Event.{Event}
use eventful.Exceptions.{Result, ok, err, transport_error, type_error, value_error}
use eventful.Runtime.{Comp, raise, ◌>>=◌, ◌>>◌, attempt, modify, continue}
use eventful.Runtime.Keeps.{IsPreorder, Keeps, Keeps-attempt, Keeps-bind, Keeps-if}
use eventful.Redis.{
  State, Consumer, Client, get_elem?, on_client, channel, ensure_open, consumer, add_consumer,
  publish, publish_event, send, published, as_transport_error,
}
use eventful.Redis.Consume.{
  with_consumer, on_object, change, subscribe, subscribe_open, open_pubsub, subscribed,
  begin_consumer, started, consume, close_transport,
}
use eventful.Redis.Objects.{AllOwned-change, AllOwned-append}
use eventful.Redis.Shutdown.{Finished, close_transport-Finished}
use eventful.Redis.Kept.{
  IsWhole, Kept, Kept-IsPreorder, client-IsWhole, on_client-Kept, consuming-Kept,
  with_consumer-Kept, raise-Kept, pure-Kept, ended-Kept, resume-Kept,
}

module _ {B D : Type 0} (codec : Codec B) (redis : Client B D) (prefix : String)
    (owns_client : Bool) where
  abbrev Whole : State D → Type 0
  Whole s = IsWhole codec redis prefix owns_client s

  abbrev Keeping : {A : Type 0} → Comp (State D) A → Type 0
  Keeping m = Keeps (Kept codec redis prefix owns_client) m

  -- An open transport with an open consumer `i`.
  record IsReady (i : ℕ) (s : State D) : Type 0 where
    whole : Whole s
    opened : s.closed ≡ false
    consumer : (c : Consumer) → get_elem? s.objects i ≡ some c → c.closed ≡ false

  client-IsReady : (i : ℕ) (s : State D) (d : D) → IsReady i s → IsReady i (record s { client = d })
  client-IsReady i s d h = record {
    whole = client-IsWhole codec redis prefix owns_client s d h.whole;
    opened = h.opened;
    consumer = h.consumer;
  }

  subscribed-IsWhole :
      (i p : ℕ) (r : Result (Unit {0})) (s : State D)
      → IsReady i s
      → Whole (subscribed codec redis prefix owns_client i p r s).1
  subscribed-IsWhole i p (ok _) s h = record {
    owned =
        AllOwned-change (λ c. record c { pubsub = some p }) i s.consumers s.objects
          (λ c g o. elim o [
            | inl done ↦ ground (arith, done.0, h.consumer c g)
            | inr opened ↦ inr opened
          ])
          h.whole.owned;
    finished = λ e. ground (arith, e, h.opened);
  }
  subscribed-IsWhole i p (err e) s h =
      client-IsWhole codec redis prefix owns_client s (redis.close_pubsub p s.client).1 h.whole

  created-IsWhole :
      (i : ℕ) (topic : String) (r : Result ℕ) (s : State D)
      → IsReady i s
      → Whole
          (continue r
            (λ p.
              attempt (
                on_client codec redis prefix owns_client
                  (redis.subscribe p (channel codec redis prefix owns_client topic)))
              >>= subscribed codec redis prefix owns_client i p)
            s).1
  created-IsWhole i topic (err e) s h = h.whole
  created-IsWhole i topic (ok p) s h =
      let run : Result (Unit {0}) × D =
        redis.subscribe p (channel codec redis prefix owns_client topic) s.client in
      subscribed-IsWhole i p run.0 (record s { client = run.1 }) (client-IsReady i s run.1 h)

  open_pubsub-IsWhole :
      (i : ℕ) (c : Consumer) (p : Option ℕ) (s : State D)
      → IsReady i s
      → Whole (open_pubsub codec redis prefix owns_client i c p s).1
  open_pubsub-IsWhole i c (some p) s h = h.whole
  open_pubsub-IsWhole i c none s h =
      let run : Result ℕ × D = redis.pubsub s.client in
      created-IsWhole i c.topic run.0 (record s { client = run.1 }) (client-IsReady i s run.1 h)

  object-IsWhole :
      (i : ℕ) (o : Option Consumer) (s : State D)
      → get_elem? s.objects i ≡ o
      → s.closed ≡ false
      → Whole s
      → Whole
          (on_object codec redis prefix owns_client o
            (subscribe_open codec redis prefix owns_client i)
            s).1
  object-IsWhole i none s g e h = h
  object-IsWhole i (some c) s g e h = by_closed c.closed refl
    where
      by_closed :
          (b : Bool)
          → c.closed ≡ b
          → Whole
              ((if b
                  then raise transport_error
                  else open_pubsub codec redis prefix owns_client i c c.pubsub)
                s).1
      by_closed true k = h
      by_closed false k = open_pubsub-IsWhole i c c.pubsub s (record {
        whole = h;
        opened = e;
        consumer = λ d f. ap (λ x. x.closed) (some-injective d c (sym f ∙ g)) ∙ k;
      })

  -- What follows the test of an open transport.
  opened-IsWhole :
      {A : Type 0} (s : State D) (b : Bool) (m : Comp (State D) A)
      → Whole s
      → (b ≡ false → Whole (m s).1)
      → Whole (continue (if b then err transport_error else ok tt) (λ _. m) s).1
  opened-IsWhole s true m h k = h
  opened-IsWhole s false m h k = k refl

  added-IsWhole :
      (topic : String) (s : State D) (b : Bool)
      → s.closed ≡ false
      → Whole s
      → Whole
          ((if b then raise value_error else add_consumer codec redis prefix owns_client topic) s).1
  added-IsWhole topic s true e h = h
  added-IsWhole topic s false e h = record {
    owned = AllOwned-append topic s.consumers s.objects h.owned;
    finished = λ k. ground (arith, e, k);
  }

  pub consumer-Kept : (topic : String) → Keeping (consumer codec redis prefix owns_client topic)
  unfolding consumer
  consumer-Kept topic = record {
    along = λ s h.
        opened-IsWhole s s.closed
          (λ t.
            (if str_eq topic ""
                then raise value_error
                else add_consumer codec redis prefix owns_client topic)
              t)
          h (λ e. added-IsWhole topic s (str_eq topic "") e h);
  }

  published-Kept : (r : Result (Unit {0})) → Keeping (published codec redis prefix owns_client r)
  published-Kept (ok _) = pure-Kept codec redis prefix owns_client tt
  published-Kept (err e) = raise-Kept codec redis prefix owns_client (as_transport_error e)

  send-Kept : (event : Event) (r : Result B) → Keeping (send codec redis prefix owns_client event r)
  send-Kept event (err e) = raise-Kept codec redis prefix owns_client e
  send-Kept event (ok payload) =
      let o : IsPreorder (Kept codec redis prefix owns_client) =
        Kept-IsPreorder codec redis prefix owns_client in
      let m : Comp D (Unit {0}) =
        redis.publish (channel codec redis prefix owns_client event.type) payload in
      Keeps-bind o (attempt (on_client codec redis prefix owns_client m))
        (published codec redis prefix owns_client)
        (Keeps-attempt o (on_client-Kept codec redis prefix owns_client m)) published-Kept

  publish_event-Kept :
      (event : Option Event) → Keeping (publish_event codec redis prefix owns_client event)
  publish_event-Kept none = raise-Kept codec redis prefix owns_client type_error
  publish_event-Kept (some event) =
      Keeps-if (Kept-IsPreorder codec redis prefix owns_client) (str_eq event.type "")
        (raise transport_error) (send codec redis prefix owns_client event (codec.encode event))
        (raise-Kept codec redis prefix owns_client transport_error)
        (send-Kept event (codec.encode event))

  pub publish-Kept : (event : Option Event) → Keeping (publish codec redis prefix owns_client event)
  unfolding publish
  publish-Kept event = record {
    along = λ s h.
        opened-IsWhole s s.publisher_closed
          (ensure_open codec redis prefix owns_client
            >> publish_event codec redis prefix owns_client event)
          h
          (λ _.
            opened-IsWhole s s.closed (publish_event codec redis prefix owns_client event) h
              (λ _. (publish_event-Kept event).along s h));
  }

  pub close_transport-Kept : Keeping (close_transport codec redis prefix owns_client)
  close_transport-Kept = record {
    along = λ s h.
        let done : Finished codec redis prefix owns_client
            (close_transport codec redis prefix owns_client s).1 =
          close_transport-Finished codec redis prefix owns_client s h.finished h.owned in
        record {
          owned = record { owned = λ i c g. inl (done.consumers i c g) };
          finished = λ _. done;
        };
  }

  pub subscribe-Kept : (i : ℕ) → Keeping (subscribe codec redis prefix owns_client i)
  unfolding subscribe
  subscribe-Kept i = record {
    along = λ s h.
        opened-IsWhole s s.closed
          (with_consumer codec redis prefix owns_client i
            (subscribe_open codec redis prefix owns_client i))
          h (λ e. object-IsWhole i (get_elem? s.objects i) s refl e h);
  }

  started-Kept :
      (i rounds : ℕ) (r : Result ℕ) → Keeping (started codec redis prefix owns_client i rounds r)
  started-Kept i rounds (ok p) = resume-Kept codec redis prefix owns_client i p rounds
  started-Kept i rounds (err e) = ended-Kept codec redis prefix owns_client i (some e)

  pub consume-Kept : (i rounds : ℕ) → Keeping (consume codec redis prefix owns_client i rounds)
  unfolding consume
  consume-Kept i rounds =
      let o : IsPreorder (Kept codec redis prefix owns_client) =
        Kept-IsPreorder codec redis prefix owns_client in
      let begin : Comp (State D) (Unit {0}) =
        with_consumer codec redis prefix owns_client i
          (begin_consumer codec redis prefix owns_client i) in
      let mark : Comp (State D) (Unit {0}) =
        modify (change codec redis prefix owns_client (λ d. record d { consuming = true }) i) in
      let m : Comp (State D) ℕ = subscribe codec redis prefix owns_client i in
      Keeps-bind o begin (λ _. attempt m >>= started codec redis prefix owns_client i rounds)
        (with_consumer-Kept codec redis prefix owns_client i
          (begin_consumer codec redis prefix owns_client i)
          (λ c.
            Keeps-if o (c.closed || c.consuming) (raise transport_error) mark
              (raise-Kept codec redis prefix owns_client transport_error)
              (consuming-Kept codec redis prefix owns_client i true)))
        (λ _.
          Keeps-bind o (attempt m) (started codec redis prefix owns_client i rounds)
            (Keeps-attempt o (subscribe-Kept i)) (started-Kept i rounds))
