-- ===== src/Redis/Kept.antt =====
-- Operations on a transport of src/eventful/transports/redis.py that keep it whole.
use eventful.Base.{
  Bool, true, false, ℕ, zero, suc, String, Option, none, some, [], ◌≡◌, refl, sym, ◌∙◌, ap, inl,
  inr, str_eq, if◌then◌else◌,
}
use eventful.Codec.{Codec}
use eventful.Event.{Event}
use eventful.Exceptions.{Exc, Result, ok, err, is_exception, transport_error, codec_error}
use eventful.Runtime.{Comp, pure, raise, ◌>>=◌, ◌>>◌, attempt, modify}
use eventful.Runtime.Keeps.{
  IsPreorder, Keeps, Keeps-pure, Keeps-raise, Keeps-attempt, Keeps-bind, Keeps-if,
}
use eventful.Redis.{
  State, Consumer, Client, Message, MessageType, message, other_type, get_elem?, on_client,
}
use eventful.Redis.Consume.{
  Round, Progress, leave, again, yields, waiting, ended, yielded, with_consumer, on_object, change,
  close, matched, decoded, payload, received, polled, poll_open, poll, cleaned, finish, follow,
  resume, is_base,
}
use eventful.Redis.Objects.{IsOwned, AllOwned-change, Owned-none, get_elem?-change_at}
use eventful.Redis.Lifecycle.{Closes, close-Closes}
use eventful.Redis.Shutdown.{Finished}

module _ {B D : Type 0} (codec : Codec B) (redis : Client B D) (prefix : String)
    (owns_client : Bool) where
  -- The transport owns its open consumers, closed ones have no Pub/Sub object, and a closed transport
  -- has closed them all and its publisher.
  pub record IsWhole (s : State D) : Type 0 where
    pub owned : IsOwned s
    pub finished : s.closed ≡ true → Finished codec redis prefix owns_client s

  abbrev pub Kept : State D → State D → Type 0
  Kept s t = IsWhole s → IsWhole t

  pub Kept-IsPreorder : IsPreorder Kept
  Kept-IsPreorder = record { here = λ s h. h; and_then = λ s t u h k f. k (h f) }

  pub client-IsWhole : (s : State D) (d : D) → IsWhole s → IsWhole (record s { client = d })
  client-IsWhole s d h = record {
    owned = h.owned;
    finished = λ e.
        let f : Finished codec redis prefix owns_client s = h.finished e in
        record { closed = f.closed; publisher = f.publisher; consumers = f.consumers };
  }

  pub on_client-Kept :
      {A : Type 0} (c : Comp D A) → Keeps Kept (on_client codec redis prefix owns_client c)
  on_client-Kept c = record { along = λ s. client-IsWhole s (c s.client).1 }

  pub consuming-Kept :
      (i : ℕ) (b : Bool)
      → Keeps Kept
          (modify (change codec redis prefix owns_client (λ c. record c { consuming = b }) i))
  consuming-Kept i b = record {
    along = λ s h.
        let f : Consumer → Consumer = λ c. record c { consuming = b } in
        record {
          owned = AllOwned-change f i s.consumers s.objects (λ c _ o. o) h.owned;
          finished = λ e.
              let done : Finished codec redis prefix owns_client s = h.finished e in
              record {
                closed = e;
                publisher = done.publisher;
                consumers = λ j d g. elim (get_elem?-change_at f i j s.objects d g) [
                  | inl (same, (c, found, k)) ↦
                      let old : (c.closed ≡ true) × (c.pubsub ≡ none) = done.consumers i c found in
                      (ap (λ x. x.closed) k ∙ old.0, ap (λ x. x.pubsub) k ∙ old.1)
                  | inr (other, found) ↦ done.consumers j d found
                ];
              };
        };
  }

  pub close-Kept : (i : ℕ) → Keeps Kept (close codec redis prefix owns_client i)
  close-Kept i = record {
    along = λ s h.
        let t : State D = (close codec redis prefix owns_client i s).1 in
        let k : Closes codec redis prefix owns_client i s t =
          close-Closes codec redis prefix owns_client i s in
        record {
          owned = k.owned s.consumers t.consumers k.set h.owned;
          finished = λ e.
              let done : Finished codec redis prefix owns_client s =
                h.finished (sym k.closed ∙ e) in
              record {
                closed = e;
                publisher = k.publisher ∙ done.publisher;
                consumers = λ j d g. Owned-none j d (
                    (k.owned [] [] (λ _ _. refl)
                        (record { owned = λ l c found. inl (done.consumers l c found) })).owned
                      j d g);
              };
        };
  }

  pub with_consumer-Kept :
      {A : Type 0} (i : ℕ) (f : Consumer → Comp (State D) A)
      → ((c : Consumer) → Keeps Kept (f c))
      → Keeps Kept (with_consumer codec redis prefix owns_client i f)
  with_consumer-Kept i f k = record { along = λ s. by_object (get_elem? s.objects i) s }
    where
      by_object :
          (o : Option Consumer) (s : State D)
          → Kept s (on_object codec redis prefix owns_client o f s).1
      by_object none s h = h
      by_object (some c) s h = (k c).along s h

  pub raise-Kept : {A : Type 0} (e : Exc) → Keeps Kept (raise {A = A} e)
  raise-Kept e = Keeps-raise Kept-IsPreorder e

  pub pure-Kept : {A : Type 0} (a : A) → Keeps Kept (pure a)
  pure-Kept a = Keeps-pure Kept-IsPreorder a

  -- The rounds of the loop.
  matched-Kept :
      (topic : String) (event : Event)
      → Keeps Kept (matched codec redis prefix owns_client topic event)
  matched-Kept topic event =
      Keeps-if Kept-IsPreorder (str_eq event.type topic) (pure (yields event))
        (raise transport_error) (pure-Kept (yields event)) (raise-Kept transport_error)

  decoded-Kept :
      (topic : String) (r : Result Event)
      → Keeps Kept (decoded codec redis prefix owns_client topic r)
  decoded-Kept topic (ok event) = matched-Kept topic event
  decoded-Kept topic (err codec_error) = raise-Kept transport_error
  decoded-Kept topic (err e) = raise-Kept e

  payload-Kept :
      (topic : String) (b : Option B) → Keeps Kept (payload codec redis prefix owns_client topic b)
  payload-Kept topic none = raise-Kept transport_error
  payload-Kept topic (some bytes) = decoded-Kept topic (codec.decode bytes)

  by_type-Kept :
      (topic : String) (t : MessageType) (b : Option B)
      → Keeps Kept (elim t [
        | message ↦ payload codec redis prefix owns_client topic b
        | other_type ↦ pure again
      ])
  by_type-Kept topic message b = payload-Kept topic b
  by_type-Kept topic other_type b = pure-Kept again

  received-Kept :
      (topic : String) (m : Option (Message B))
      → Keeps Kept (received codec redis prefix owns_client topic m)
  received-Kept topic none = pure-Kept again
  received-Kept topic (some m) = by_type-Kept topic m.type m.data_bytes

  failed_read-Kept :
      (i : ℕ)
      → Keeps Kept (
          with_consumer codec redis prefix owns_client i
            (λ c. if c.closed then pure leave else raise transport_error))
  failed_read-Kept i =
      with_consumer-Kept i (λ c. if c.closed then pure leave else raise transport_error)
        (λ c.
          Keeps-if Kept-IsPreorder c.closed (pure leave) (raise transport_error) (pure-Kept leave)
            (raise-Kept transport_error))

  polled-Kept :
      (i : ℕ) (topic : String) (r : Result (Option (Message B)))
      → Keeps Kept (polled codec redis prefix owns_client i topic r)
  polled-Kept i topic (ok m) = received-Kept topic m
  polled-Kept i topic (err e) =
      Keeps-if Kept-IsPreorder (is_exception e)
        (with_consumer codec redis prefix owns_client i
          (λ c. if c.closed then pure leave else raise transport_error))
        (raise e) (failed_read-Kept i) (raise-Kept e)

  poll-Kept : (i p : ℕ) → Keeps Kept (poll codec redis prefix owns_client i p)
  unfolding poll
  poll-Kept i p =
      let read : Comp (State D) (Option (Message B)) =
        on_client codec redis prefix owns_client (redis.get_message p) in
      let loop : Consumer → Comp (State D) Round =
        λ c. attempt read >>= polled codec redis prefix owns_client i c.topic in
      with_consumer-Kept i (poll_open codec redis prefix owns_client i p) (λ c.
        Keeps-if Kept-IsPreorder c.closed (pure leave) (loop c) (pure-Kept leave) (
          Keeps-bind Kept-IsPreorder (attempt read)
            (polled codec redis prefix owns_client i c.topic)
            (Keeps-attempt Kept-IsPreorder (on_client-Kept (redis.get_message p)))
            (polled-Kept i c.topic)))

  -- The `finally` clause.
  cleaned-Kept :
      (active : Option Exc) (r : Result (Unit {0}))
      → Keeps Kept (cleaned codec redis prefix owns_client active r)
  cleaned-Kept none (ok _) = pure-Kept tt
  cleaned-Kept (some e) (ok _) = raise-Kept e
  cleaned-Kept none (err e) = raise-Kept e
  cleaned-Kept (some failure) (err transport_error) =
      raise-Kept (if is_base "GeneratorExit" failure then transport_error else failure)
  cleaned-Kept (some failure) (err e) = raise-Kept e

  pub finish-Kept :
      (i : ℕ) (active : Option Exc) → Keeps Kept (finish codec redis prefix owns_client i active)
  unfolding finish
  finish-Kept i active =
      let m : Comp (State D) (Unit {0}) = close codec redis prefix owns_client i in
      let end : Result (Unit {0}) → Comp (State D) (Unit {0}) =
        cleaned codec redis prefix owns_client active in
      Keeps-bind Kept-IsPreorder
        (modify (change codec redis prefix owns_client (λ c. record c { consuming = false }) i))
        (λ _. attempt m >>= end) (consuming-Kept i false)
        (λ _.
          Keeps-bind Kept-IsPreorder (attempt m) end (Keeps-attempt Kept-IsPreorder (close-Kept i))
            (cleaned-Kept active))

  pub ended-Kept :
      (i : ℕ) (active : Option Exc)
      → Keeps Kept (finish codec redis prefix owns_client i active >> pure ended)
  ended-Kept i active =
      Keeps-bind Kept-IsPreorder (finish codec redis prefix owns_client i active) (λ _. pure ended)
        (finish-Kept i active) (λ _. pure-Kept ended)

  follow-Kept :
      (i : ℕ) (rest : Comp (State D) Progress) (r : Result Round)
      → Keeps Kept rest
      → Keeps Kept (follow codec redis prefix owns_client i rest r)
  follow-Kept i rest (ok leave) k = ended-Kept i none
  follow-Kept i rest (ok again) k = k
  follow-Kept i rest (ok (yields event)) k = pure-Kept (yielded event)
  follow-Kept i rest (err e) k = ended-Kept i (some e)

  pub resume-Kept : (i p rounds : ℕ) → Keeps Kept (resume codec redis prefix owns_client i p rounds)
  unfolding resume
  resume-Kept i p zero = pure-Kept waiting
  resume-Kept i p (suc rounds) =
      let rest : Comp (State D) Progress = resume codec redis prefix owns_client i p rounds in
      Keeps-bind Kept-IsPreorder (attempt (poll codec redis prefix owns_client i p))
        (follow codec redis prefix owns_client i rest)
        (Keeps-attempt Kept-IsPreorder (poll-Kept i p))
        (λ r. follow-Kept i rest r (resume-Kept i p rounds))
