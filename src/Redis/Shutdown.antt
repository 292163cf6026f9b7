-- ===== src/Redis/Shutdown.antt =====
-- The end of a transport of src/eventful/transports/redis.py, whatever the client does.
use eventful.Base.{
  Bool, true, false, ℕ, String, none, some, List, [], ◌∷◌, ◌≡◌, refl, ◌∙◌, arith, if◌then◌else◌,
  has,
}
use eventful.Codec.{Codec}
use eventful.Exceptions.{Result, ok, err, is_exception, transport_error}
use eventful.Runtime.{Comp, pure, raise, ◌>>=◌, ◌>>◌, attempt, modify, continue}
use eventful.Runtime.Keeps.{
  IsPreorder, Keeps, Keeps-pure, Keeps-raise, Keeps-attempt, Keeps-bind, Keeps-if,
}
use eventful.Redis.{State, Consumer, Client, get_elem?, on_client}
use eventful.Redis.Consume.{has_failed, close, close_all, close_client, close_transport, shut_down}
use eventful.Redis.Objects.{AllOwned, IsOwned, SameBut, Owned-none}
use eventful.Redis.Lifecycle.{Closes, close-Closes}

module _ {B D : Type 0} (codec : Codec B) (redis : Client B D) (prefix : String)
    (owns_client : Bool) where
  -- A run that has returned after the closes of these consumers, all others being closed before.
  record AllClosed (is : List ℕ) (s : State D) (r : Result Bool) (t : State D) : Type 0 where
    failed : Bool
    returned : r ≡ ok failed
    closed : t.closed ≡ s.closed
    publisher : t.publisher_closed ≡ s.publisher_closed
    objects : AllOwned is s.objects → AllOwned [] t.objects

  has-head : (i : ℕ) (is : List ℕ) → SameBut i (i ∷ is) is
  unfolding has
  has-head i is j h = ground (arith, h)

  gathered-AllClosed :
      (i : ℕ) (is : List ℕ) (s t : State D) (f : Bool → Bool) (r : Result Bool) (u : State D)
      → Closes codec redis prefix owns_client i s t
      → AllClosed is t r u
      → AllClosed (i ∷ is) s (continue r (λ b. pure (f b)) u).0 (continue r (λ b. pure (f b)) u).1
  gathered-AllClosed i is s t f (ok b) u k a = record {
    failed = f b;
    returned = refl;
    closed = a.closed ∙ k.closed;
    publisher = a.publisher ∙ k.publisher;
    objects = λ o. a.objects (k.owned (i ∷ is) is (has-head i is) o);
  }
  gathered-AllClosed i is s t f (err e) u k a = absurd (ground (arith, a.returned))

  close_all-AllClosed :
      (is : List ℕ) (s : State D)
      → AllClosed is s
          (close_all codec redis prefix owns_client is s).0
          (close_all codec redis prefix owns_client is s).1
  unfolding close_all
  close_all-AllClosed [] s = record {
    failed = false;
    returned = refl;
    closed = refl;
    publisher = refl;
    objects = λ o. o;
  }
  close_all-AllClosed (i ∷ is) s =
      let one : Result (Unit {0}) × State D = close codec redis prefix owns_client i s in
      let rest : Result Bool × State D = close_all codec redis prefix owns_client is one.1 in
      gathered-AllClosed i is s one.1 (λ failed. elim one.0 [ ok _ ↦ failed | err e ↦ true ]) rest.0
        rest.1 (close-Closes codec redis prefix owns_client i s) (close_all-AllClosed is one.1)

  -- The transport and its publisher are closed, and each consumer is closed and has no Pub/Sub object.
  pub record Finished (t : State D) : Type 0 where
    pub closed : t.closed ≡ true
    pub publisher : t.publisher_closed ≡ true
    pub consumers :
        (i : ℕ) (c : Consumer)
        → get_elem? t.objects i ≡ some c
        → (c.closed ≡ true) × (c.pubsub ≡ none)

  -- A Finished transport stays so.
  abbrev Still : State D → State D → Type 0
  Still s t = Finished s → Finished t

  Still-IsPreorder : IsPreorder Still
  Still-IsPreorder = record { here = λ s h. h; and_then = λ s t u h k f. k (h f) }

  has_failed-Still :
      (r : Result (Unit {0})) → Keeps Still (has_failed codec redis prefix owns_client r)
  has_failed-Still (ok _) = Keeps-pure Still-IsPreorder false
  has_failed-Still (err e) =
      Keeps-if Still-IsPreorder (is_exception e) (pure true) (raise e)
        (Keeps-pure Still-IsPreorder true) (Keeps-raise Still-IsPreorder e)

  raise_if-Still :
      (failed : Bool) → Keeps Still (λ t. (if failed then raise transport_error else pure tt) t)
  raise_if-Still failed =
      Keeps-if Still-IsPreorder failed (raise transport_error) (pure tt)
        (Keeps-raise Still-IsPreorder transport_error) (Keeps-pure Still-IsPreorder tt)

  close_client-Still :
      (owned : Bool) → Keeps Still (close_client codec redis prefix owns_client owned)
  close_client-Still false = Keeps-pure Still-IsPreorder tt
  close_client-Still true =
      let c : Comp (State D) (Unit {0}) =
        on_client codec redis prefix owns_client redis.close_client in
      let failed : Result (Unit {0}) → Comp (State D) Bool =
        has_failed codec redis prefix owns_client in
      let end : Bool → Comp (State D) (Unit {0}) =
        λ b. if b then raise transport_error else pure tt in
      Keeps-bind Still-IsPreorder (attempt c) (λ r. failed r >>= end)
        (Keeps-attempt Still-IsPreorder (record {
          along =
              λ s h. record { closed = h.closed; publisher = h.publisher; consumers = h.consumers };
        }))
        (λ r. Keeps-bind Still-IsPreorder (failed r) end (has_failed-Still r) raise_if-Still)

  abbrev end_of_close : Bool → Comp (State D) (Unit {0})
  end_of_close failed =
      modify (λ s. record s { publisher_closed = true })
      >> (close_client codec redis prefix owns_client owns_client
          >> (if failed then raise transport_error else pure tt))

  end_of_close-Finished :
      (is : List ℕ) (s : State D) (r : Result Bool) (u : State D)
      → s.closed ≡ true
      → AllOwned is s.objects
      → AllClosed is s r u
      → Finished (continue r end_of_close u).1
  end_of_close-Finished is s (err e) u c o a = absurd (ground (arith, a.returned))
  end_of_close-Finished is s (ok failed) u c o a =
      let before : State D = record u { publisher_closed = true } in
      let done : Finished before = record {
        closed = a.closed ∙ c;
        publisher = refl;
        consumers = λ i d g. Owned-none i d ((a.objects o).owned i d g);
      } in
      (Keeps-bind Still-IsPreorder (close_client codec redis prefix owns_client owns_client)
          (λ _. if failed then raise transport_error else pure tt) (close_client-Still owns_client)
          (λ _. raise_if-Still failed)).along
        before done

  close_transport_by :
      (b : Bool) (s : State D)
      → s.closed ≡ b
      → (s.closed ≡ true → Finished s)
      → IsOwned s
      → Finished ((if b then pure tt else shut_down codec redis prefix owns_client s) s).1
  close_transport_by true s e h o = h e
  close_transport_by false s e h o =
      let t : State D = record s { closed = true } in
      let run : Result Bool × State D = close_all codec redis prefix owns_client s.consumers t in
      end_of_close-Finished s.consumers t run.0 run.1 refl o (close_all-AllClosed s.consumers t)

  pub close_transport-Finished :
      (s : State D)
      → (s.closed ≡ true → Finished s)
      → IsOwned s
      → Finished (close_transport codec redis prefix owns_client s).1
  unfolding close_transport
  close_transport-Finished s h o = close_transport_by s.closed s refl h o
