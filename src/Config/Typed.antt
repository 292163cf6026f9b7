-- ===== src/Config/Typed.antt =====
-- What the configuration of src/eventful/config.py has after its construction from a mapping.
use eventful.Base.{
  Bool, true, false, String, Option, none, some, some-injective, [], ◌∷◌, ◌≡◌, ◌≢◌, refl, sym, ◌∙◌,
  ap, subst, arith, eq_iff, str_eq, if◌then◌else◌,
}
use eventful.Base.Dict
use eventful.Base.Dict.{Dict, IsKeyed, get-put, get-put_self}
use eventful.Event.{Value, mapping, or_default}
use eventful.Exceptions.{Result, ok, err, configuration_error, ◌>>=◌}
use eventful.Config.{
  EventfulConfig, Field, name, target, field_of, Scalars, construct, coerce_value, update_fields,
  update_extras, visit_item, visit_items, from_mapping, enable_priorities, propagation_enabled,
  redis_url, redis_channel, redis_reconnect_backoff, file_path, file_max_size, file_backup_count,
  postgres_url, postgres_table, logging_enabled, logging_level, max_queue_size,
}

-- The value of a field.
abbrev pub setting : Field → EventfulConfig → Value
setting enable_priorities c = c.settings.enable_priorities
setting propagation_enabled c = c.settings.propagation_enabled
setting redis_url c = c.settings.redis_url
setting redis_channel c = c.settings.redis_channel
setting redis_reconnect_backoff c = c.settings.redis_reconnect_backoff
setting file_path c = c.settings.file_path
setting file_max_size c = c.settings.file_max_size
setting file_backup_count c = c.settings.file_backup_count
setting postgres_url c = c.settings.postgres_url
setting postgres_table c = c.settings.postgres_table
setting logging_enabled c = c.settings.logging_enabled
setting logging_level c = c.settings.logging_level
setting max_queue_size c = c.settings.max_queue_size

ok-eq : {A : Type 0} (a b : A) → ◌≡◌ {A = Result A} (ok a) (ok b) → a ≡ b
ok-eq a b h = cc

module _ (scalars : Scalars) where
  -- The value that a field has without an argument.
  abbrev pub default : Field → Value
  default f = setting f (construct scalars [] [])

  setting-construct :
      (f : Field) (arguments extras : Dict Value)
      → setting f (construct scalars arguments extras)
        ≡ or_default (default f) (Dict.get (name f) arguments)
  unfolding Dict.get
  setting-construct enable_priorities arguments extras = refl
  setting-construct propagation_enabled arguments extras = refl
  setting-construct redis_url arguments extras = refl
  setting-construct redis_channel arguments extras = refl
  setting-construct redis_reconnect_backoff arguments extras = refl
  setting-construct file_path arguments extras = refl
  setting-construct file_max_size arguments extras = refl
  setting-construct file_backup_count arguments extras = refl
  setting-construct postgres_url arguments extras = refl
  setting-construct postgres_table arguments extras = refl
  setting-construct logging_enabled arguments extras = refl
  setting-construct logging_level arguments extras = refl
  setting-construct max_queue_size arguments extras = refl

  -- The argument of a field, for what the mapping has under its name and for what was there before.
  abbrev Reads : Field → Option Value → Option Value → Option Value → Type 0
  Reads f none before after = after ≡ before
  Reads f (some raw) before after =
      (v : Value) × (after ≡ some v) × (coerce_value scalars raw (target f) ≡ ok v)

  -- One round, for a field with another name and for the field of the key.
  record Visited (key : String) (raw : Value) (arguments after : Dict Value) : Type 0 where
    others : (j : String) → j ≢ key → Dict.get j after ≡ Dict.get j arguments
    same :
        (f : Field)
        → field_of key ≡ some f
        → Reads f (some raw) (Dict.get key arguments) (Dict.get key after)

  update-kept :
      (raw : Value) (arguments extras : Dict Value) (both : Dict Value × Dict Value)
      → update_extras raw arguments extras ≡ ok both
      → both.0 ≡ arguments
  update-kept (mapping fs) arguments extras both h =
      ap (λ x. x.0) (sym (ok-eq (arguments, update_fields extras fs) both h))
  update-kept raw arguments extras both h = absurd cc

  -- A key of no field leaves the arguments.
  other_key-kept :
      (is_extra allow_extra : Bool) (key : String) (raw : Value) (arguments extras : Dict Value)
      (both : Dict Value × Dict Value)
      → (if is_extra
          then update_extras raw arguments extras
          else if allow_extra
          then ok (arguments, Dict.put key raw extras)
          else err configuration_error)
        ≡ ok both
      → both.0 ≡ arguments
  other_key-kept true allow_extra key raw arguments extras both h =
      update-kept raw arguments extras both h
  other_key-kept false true key raw arguments extras both h =
      ap (λ x. x.0) (sym (ok-eq (arguments, Dict.put key raw extras) both h))
  other_key-kept false false key raw arguments extras both h = absurd cc

  converted-Visited :
      (f : Field) (key : String) (raw : Value) (arguments extras : Dict Value)
      (both : Dict Value × Dict Value) (r : Result Value)
      → field_of key ≡ some f
      → coerce_value scalars raw (target f) ≡ r
      → (r >>= (λ value. ok (Dict.put key value arguments, extras))) ≡ ok both
      → Visited key raw arguments both.0
  converted-Visited f key raw arguments extras both (err x) e c h = absurd cc
  converted-Visited f key raw arguments extras both (ok v) e c h =
      let q : both.0 ≡ Dict.put key v arguments =
        ap (λ x. x.0) (sym (ok-eq (Dict.put key v arguments, extras) both h)) in
      record {
        others =
            λ j k. ap (Dict.get j) q ∙ grind (arith, get-put key j v arguments, eq_iff key j, k);
        same = λ g k.
            let one : f ≡ g = some-injective f g (sym e ∙ k) in
            (
              v,
              ap (Dict.get key) q ∙ get-put_self key v arguments,
              ap (λ x. coerce_value scalars raw (target x)) (sym one) ∙ c,
            );
      }

  visit_item-Visited :
      (f : Option Field) (allow_extra : Bool) (key : String) (raw : Value)
      (arguments extras : Dict Value) (both : Dict Value × Dict Value)
      → field_of key ≡ f
      → visit_item scalars allow_extra f key raw arguments extras ≡ ok both
      → Visited key raw arguments both.0
  visit_item-Visited none allow_extra key raw arguments extras both e h = record {
    others = λ j k.
        ap (Dict.get j)
          (other_key-kept (str_eq key "extra") allow_extra key raw arguments extras both h);
    same = λ f g. absurd cc;
  }
  visit_item-Visited (some f) allow_extra key raw arguments extras both e h =
      converted-Visited f key raw arguments extras both (coerce_value scalars raw (target f)) e refl
        h

  -- The arguments after the loop.
  record Read (items arguments after : Dict Value) : Type 0 where
    field_value :
        (key : String) (f : Field)
        → field_of key ≡ some f
        → Reads f (Dict.get key items) (Dict.get key arguments) (Dict.get key after)

  same_key-Reads :
      (f : Field) (raw : Value) (there before mid after : Option Value)
      → there ≡ none
      → Reads f (some raw) before mid
      → Reads f there mid after
      → Reads f (some raw) before after
  same_key-Reads f raw none before mid after h (v, m, c) k = (v, k ∙ m, c)
  same_key-Reads f raw (some x) before mid after h r k = absurd cc

  first-Read :
      (key : String) (raw : Value) (items arguments mid after : Dict Value)
      → Dict.get key items ≡ none
      → Visited key raw arguments mid
      → Read items mid after
      → Read ((key, raw) ∷ items) arguments after
  unfolding Dict.get
  first-Read key raw items arguments mid after u r k = record {
    field_value = λ j f e. by_test j f e (str_eq key j) refl;
  }
    where
      by_test :
          (j : String) (f : Field)
          → field_of j ≡ some f
          → (b : Bool) → str_eq key j ≡ b
          → Reads f
              (if b then some raw else Dict.get j items)
              (Dict.get j arguments)
              (Dict.get j after)
      by_test j f e false h =
          subst (λ m. Reads f (Dict.get j items) m (Dict.get j after))
            (r.others j (λ q. grind (arith, eq_iff key j, h, q))) (k.field_value j f e)
      by_test j f e true h =
          let q : key ≡ j = grind (arith, eq_iff key j, h) in
          let at_key : field_of key ≡ some f = ap field_of q ∙ e in
          subst (λ i. Reads f (some raw) (Dict.get i arguments) (Dict.get i after)) q
            (same_key-Reads f raw (Dict.get key items) (Dict.get key arguments) (Dict.get key mid)
              (Dict.get key after) u (r.same f at_key) (k.field_value key f at_key))

  next-Read :
      (allow_extra : Bool) (key : String) (raw : Value) (items arguments extras : Dict Value)
      (both : Dict Value × Dict Value) (r : Result (Dict Value × Dict Value))
      → Dict.get key items ≡ none
      → visit_item scalars allow_extra (field_of key) key raw arguments extras ≡ r
      → (r >>= (λ mid. visit_items scalars allow_extra items mid.0 mid.1)) ≡ ok both
      → ((mid : Dict Value × Dict Value)
          → visit_items scalars allow_extra items mid.0 mid.1 ≡ ok both
          → Read items mid.0 both.0)
      → Read ((key, raw) ∷ items) arguments both.0
  next-Read allow_extra key raw items arguments extras both (err e) u v h k = absurd cc
  next-Read allow_extra key raw items arguments extras both (ok mid) u v h k =
      first-Read key raw items arguments mid.0 both.0 u
        (visit_item-Visited (field_of key) allow_extra key raw arguments extras mid refl v)
        (k mid h)

  visit_items-Read :
      (allow_extra : Bool) (items arguments extras : Dict Value) (both : Dict Value × Dict Value)
      → IsKeyed items
      → visit_items scalars allow_extra items arguments extras ≡ ok both
      → Read items arguments both.0
  unfolding visit_items Dict.get
  visit_items-Read allow_extra [] arguments extras both u h = record {
    field_value = λ key f e. ap (λ x. Dict.get key x.0) (sym (ok-eq (arguments, extras) both h));
  }
  visit_items-Read allow_extra ((key, raw) ∷ items) arguments extras both u h =
      next-Read allow_extra key raw items arguments extras both
        (visit_item scalars allow_extra (field_of key) key raw arguments extras) u.0 refl h
        (λ mid k. visit_items-Read allow_extra items mid.0 mid.1 both u.1 k)

  -- What a field is, for what the mapping has under its name.
  abbrev pub FieldIs : Field → Option Value → Value → Type 0
  FieldIs f none v = v ≡ default f
  FieldIs f (some raw) v = coerce_value scalars raw (target f) ≡ ok v

  field_of-name : (f : Field) → field_of (name f) ≡ some f
  unfolding field_of
  field_of-name enable_priorities = refl
  field_of-name propagation_enabled = refl
  field_of-name redis_url = refl
  field_of-name redis_channel = refl
  field_of-name redis_reconnect_backoff = refl
  field_of-name file_path = refl
  field_of-name file_max_size = refl
  field_of-name file_backup_count = refl
  field_of-name postgres_url = refl
  field_of-name postgres_table = refl
  field_of-name logging_enabled = refl
  field_of-name logging_level = refl
  field_of-name max_queue_size = refl

  Reads-FieldIs :
      (f : Field) (there after : Option Value) (v : Value)
      → Reads f there none after
      → v ≡ or_default (default f) after
      → FieldIs f there v
  Reads-FieldIs f none after v h e = e ∙ ap (or_default (default f)) h
  Reads-FieldIs f (some raw) after v (w, a, c) e =
      c ∙ ap ok (sym (e ∙ ap (or_default (default f)) a))

  constructed-FieldIs :
      (values : Dict Value) (r : Result (Dict Value × Dict Value)) (config : EventfulConfig)
      → ((both : Dict Value × Dict Value) → r ≡ ok both → Read values [] both.0)
      → (r >>= (λ both. ok (construct scalars both.0 both.1))) ≡ ok config
      → (f : Field) → FieldIs f (Dict.get (name f) values) (setting f config)
  unfolding Dict.get
  constructed-FieldIs values (err e) config k h f = absurd cc
  constructed-FieldIs values (ok both) config k h f =
      let same : construct scalars both.0 both.1 ≡ config =
        ok-eq (construct scalars both.0 both.1) config h in
      Reads-FieldIs f (Dict.get (name f) values) (Dict.get (name f) both.0) (setting f config)
        ((k both refl).field_value (name f) f (field_of-name f))
        (ap (setting f) (sym same) ∙ setting-construct f both.0 both.1)

  -- A configuration that `from_mapping` gives for a `dict`: each field has its default value, where the
  -- mapping has no key of its name, and otherwise what the value of this key is converted to, by the
  -- declared type of the field.
  pub from_mapping-FieldIs :
      (allow_extra : Bool) (values : Dict Value) (config : EventfulConfig)
      → IsKeyed values
      → from_mapping scalars allow_extra values ≡ ok config
      → (f : Field) → FieldIs f (Dict.get (name f) values) (setting f config)
  unfolding from_mapping
  from_mapping-FieldIs allow_extra values config u h f =
      constructed-FieldIs values (visit_items scalars allow_extra values [] []) config
        (λ both k. visit_items-Read allow_extra values [] [] both u k) h f
