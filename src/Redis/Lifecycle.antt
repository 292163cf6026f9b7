-- ===== src/Redis/Lifecycle.antt =====
-- The lifecycle of the consumers of src/eventful/transports/redis.py, whatever the client does.
use eventful.Base.{
  Bool, true, false, ℕ, String, Option, none, some, some-injective, List, ◌≡◌, refl, sym, ◌∙◌, ap,
  subst, ◌||◌, arith, if◌then◌else◌,
}
use eventful.Codec.{Codec}
use eventful.Exceptions.{Result, ok, err, is_exception, transport_error}
use eventful.Runtime.{Comp, pure, raise, ◌>>=◌, ◌>>◌, attempt, modify}
use eventful.Runtime.Keeps.{
  IsPreorder, Keeps, Keeps-pure, Keeps-raise, Keeps-attempt, Keeps-bind, Keeps-if,
}
use eventful.Redis.{State, Consumer, Client, get_elem?, on_client, channel}
use eventful.Redis.Consume.{
  on_object, change, shut, has_failed, discard, release, close_open, close,
}
use eventful.Redis.Objects.{AllOwned, SameBut, AllOwned-without, AllOwned-shut, has-keep_if, Spares}

abbrev Spares-IsPreorder : {D : Type 0} (i : ℕ) → IsPreorder (Spares {D = D} i)
Spares-IsPreorder i = record {
  here = λ s. record { closed = refl; publisher = refl; objects = refl; others = λ _ _. refl };
  and_then = λ s t u h k. record {
    closed = k.closed ∙ h.closed;
    publisher = k.publisher ∙ h.publisher;
    objects = k.objects ∙ h.objects;
    others = λ j e. k.others j e ∙ h.others j e;
  };
}

module _ {B D : Type 0} (codec : Codec B) (redis : Client B D) (prefix : String)
    (owns_client : Bool) where
  on_client-Spares :
      {A : Type 0} (i : ℕ) (c : Comp D A)
      → Keeps (Spares i) (on_client codec redis prefix owns_client c)
  on_client-Spares i c = record {
    along = λ s. record { closed = refl; publisher = refl; objects = refl; others = λ _ _. refl };
  }

  discard-Spares : (i : ℕ) → Keeps (Spares i) (discard codec redis prefix owns_client i)
  discard-Spares i = record {
    along = λ s. record {
      closed = refl;
      publisher = refl;
      objects = refl;
      others = λ j e. has-keep_if i j s.consumers e;
    };
  }

  has_failed-Spares :
      (i : ℕ) (r : Result (Unit {0}))
      → Keeps (Spares i) (has_failed codec redis prefix owns_client r)
  has_failed-Spares i (ok _) = Keeps-pure (Spares-IsPreorder i) false
  has_failed-Spares i (err e) =
      Keeps-if (Spares-IsPreorder i) (is_exception e) (pure true) (raise e)
        (Keeps-pure (Spares-IsPreorder i) true) (Keeps-raise (Spares-IsPreorder i) e)

  release-Spares :
      (i : ℕ) (topic : String) (p : Option ℕ)
      → Keeps (Spares i) (release codec redis prefix owns_client i topic p)
  release-Spares i topic none = discard-Spares i
  release-Spares i topic (some p) =
      let o : IsPreorder (Spares {D = D} i) = Spares-IsPreorder i in
      let unsubscribe : Comp (State D) (Unit {0}) =
        on_client codec redis prefix owns_client
          (redis.unsubscribe p (channel codec redis prefix owns_client topic)) in
      let aclose : Comp (State D) (Unit {0}) =
        on_client codec redis prefix owns_client (redis.close_pubsub p) in
      let failed : Result (Unit {0}) → Comp (State D) Bool =
        has_failed codec redis prefix owns_client in
      let end : Bool → Bool → Comp (State D) (Unit {0}) =
        λ a b. if a || b then raise transport_error else pure tt in
      let last : Bool → Bool → Comp (State D) (Unit {0}) =
        λ a b. discard codec redis prefix owns_client i >> end a b in
      Keeps-bind o (attempt unsubscribe)
        (λ first. failed first >>= λ a. attempt aclose >>= λ second. failed second >>= last a)
        (Keeps-attempt o
          (on_client-Spares i (redis.unsubscribe p (channel codec redis prefix owns_client topic))))
        (λ first.
          Keeps-bind o (failed first) (λ a. attempt aclose >>= λ second. failed second >>= last a)
            (has_failed-Spares i first)
            (λ a.
              Keeps-bind o (attempt aclose) (λ second. failed second >>= last a)
                (Keeps-attempt o (on_client-Spares i (redis.close_pubsub p)))
                (λ second. Keeps-bind o (failed second) (last a) (has_failed-Spares i second) (λ b.
                  Keeps-bind o (discard codec redis prefix owns_client i) (λ _. end a b)
                    (discard-Spares i)
                    (λ _.
                      Keeps-if o (a || b) (raise transport_error) (pure tt)
                        (Keeps-raise o transport_error) (Keeps-pure o tt))))))

  -- What closing a consumer does: it is shut, and of the set it is all that may have gone.
  pub record Closes (i : ℕ) (s t : State D) : Type 0 where
    pub closed : t.closed ≡ s.closed
    pub publisher : t.publisher_closed ≡ s.publisher_closed
    pub set : SameBut i s.consumers t.consumers
    pub owned : (is js : List ℕ) → SameBut i is js → AllOwned is s.objects → AllOwned js t.objects

  closed-Closes :
      (i : ℕ) (s : State D)
      → ((c : Consumer) → get_elem? s.objects i ≡ some c → c.closed ≡ true)
      → Closes i s s
  closed-Closes i s h = record {
    closed = refl;
    publisher = refl;
    set = λ _ _. refl;
    owned = λ is js k o. AllOwned-without i is js s.objects k h o;
  }

  open-Closes :
      (i : ℕ) (s : State D) (c : Consumer) (b : Bool)
      → get_elem? s.objects i ≡ some c
      → c.closed ≡ b
      → Closes i s
          ((if b
              then pure tt
              else (modify (change codec redis prefix owns_client shut i)
                  >> release codec redis prefix owns_client i c.topic c.pubsub))
            s).1
  open-Closes i s c true g e =
      closed-Closes i s (λ d h. ap (λ x. x.closed) (some-injective d c (sym h ∙ g)) ∙ e)
  open-Closes i s c false g e =
      let k : Spares i (change codec redis prefix owns_client shut i s)
          (release codec redis prefix owns_client i c.topic c.pubsub
            (change codec redis prefix owns_client shut i s)).1 =
        (release-Spares i c.topic c.pubsub).along
          (change codec redis prefix owns_client shut i s) in
      record {
        closed = k.closed;
        publisher = k.publisher;
        set = k.others;
        owned =
            λ is js h o. subst (AllOwned js) (sym k.objects) (AllOwned-shut i is js s.objects h o);
      }

  object-Closes :
      (i : ℕ) (s : State D) (o : Option Consumer)
      → get_elem? s.objects i ≡ o
      → Closes i s
          (on_object codec redis prefix owns_client o
            (close_open codec redis prefix owns_client i)
            s).1
  object-Closes i s none h = closed-Closes i s (λ c g. ground (arith, h, g))
  object-Closes i s (some c) h = open-Closes i s c c.closed h refl

  pub close-Closes : (i : ℕ) (s : State D) → Closes i s (close codec redis prefix owns_client i s).1
  unfolding close
  close-Closes i s = object-Closes i s (get_elem? s.objects i) refl
