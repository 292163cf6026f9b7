-- ===== src/SchemaRegistry/Verdict.antt =====
-- What registration does to the table, and what validation can raise.
use eventful.Base.{
  Bool, ◌≢◌, true, false, String, Option, none, some, ◌≡◌, ◌↔◌, refl, sym, ◌∙◌, ap, arith, str_eq,
  eq_iff, if◌then◌else◌, Bool-cases, inl, inr,
}
use eventful.Base.Dict
use eventful.Base.Dict.{get-put, get-del, del-put_fresh, get-put_self, Dict}
use eventful.Event.{Ref}
use eventful.Exceptions.{Exc, Result, ok, err, is_exception, schema_validation_error, value_error}
use eventful.Runtime.{continue}
use eventful.SchemaRegistry.{
  Schema, validator, function, SchemaRegistry, Schemas, accepted, register, unregister, resolve,
  apply, normalized, validate, validate_with,
}

contains_got :
    (event_type : String) (schema : Schema) (d : Dict Schema)
    → Dict.get event_type d ≡ some schema
    → Dict.contains event_type d ≡ true
contains_got event_type schema d e = rw (Dict.contains, e) refl

-- A registration under a type that is not empty is what the type resolves to, in place of an earlier
-- one, and no other type resolves to anything new; unregistering the type reports true, and the type
-- resolves to nothing then. If the type was new, the table is the old one again.
pub register_lem :
    (event_type : String) (schema : Schema) (r : SchemaRegistry)
    → str_eq event_type "" ≡ false
    → (r' : SchemaRegistry) × (register event_type (some schema) r ≡ ok r')
      × ((t : String) → resolve t r' ≡ (if str_eq event_type t then some schema else resolve t r))
      × ((unregister event_type r').0 ≡ true)
      × (resolve event_type (unregister event_type r').1 ≡ none)
      × (resolve event_type r ≡ none → (unregister event_type r').1 ≡ r)
unfolding register unregister resolve
register_lem event_type schema r filled = (
  Dict.put event_type schema r,
  rw filled refl,
  λ t. get-put event_type t schema r,
  contains_got event_type schema (Dict.put event_type schema r) (get-put_self event_type schema r),
  ground (
    arith,
    get-del event_type event_type (Dict.put event_type schema r),
    eq_iff event_type event_type,
  ),
  λ fresh. del-put_fresh event_type schema r fresh,
)

not_ok : (e : Exc) → ¬ (◌≡◌ {A = Result (Unit {0})} (err e) (ok tt))
not_ok e h = cc

kind_of :
    (f e : Exc)
    → ◌≡◌ {A = Result (Unit {0})}
        (err (if is_exception f then schema_validation_error else f))
        (err e)
    → is_exception e ≡ true
    → e ≡ schema_validation_error
kind_of f e h x = elim (Bool-cases (is_exception f)) [
  | inl y ↦ let g : err schema_validation_error ≡ err e = rw y at h in cc
  | inr n ↦ let g : err f ≡ err e = rw n at h in absurd (ground (arith, g, n, x))
]

module _ {S : Type 0} (schemas : Schemas S) where
  normalized_err :
      (e : Exc) (s : S)
      → normalized schemas (err e) s
        ≡ (err (if is_exception e then schema_validation_error else e), s)
  normalized_err schema_validation_error s = refl
  normalized_err e s = refl

  normalized_ok : (o : Result (Unit {0})) (s : S) → (normalized schemas o s).0 ≡ ok tt ↔ o ≡ ok tt
  normalized_ok (ok tt) s = (λ h. refl, λ h. refl)
  normalized_ok (err e) s = (
    λ h. absurd (not_ok _ (sym (ap (λ x. x.0) (normalized_err e s)) ∙ h)),
    λ h. absurd (not_ok e h),
  )

  normalized_kind :
      (o : Result (Unit {0})) (s : S) (e : Exc)
      → (normalized schemas o s).0 ≡ err e
      → is_exception e ≡ true
      → e ≡ schema_validation_error
  normalized_kind (ok u) s e h x = absurd (not_ok e (sym h))
  normalized_kind (err f) s e h x = kind_of f e (sym (ap (λ y. y.0) (normalized_err f s)) ∙ h) x

  -- The schema accepts the event: a validator returns, and a callable returns something else than `False`.
  abbrev pub Accepts : Schema → Ref → S → Type 0
  Accepts (validator v) event s = (schemas.call_validate v event s).0 ≡ ok tt
  Accepts (function f) event s =
      (r : Option Bool) × (((schemas.call_function f event s).0 ≡ ok r) × (r ≢ some false))

  function-Accepts :
      (o : Result (Option Bool)) (s : S)
      → ((continue o (accepted schemas) s).0 ≡ ok tt)
        ↔ ((r : Option Bool) × ((o ≡ ok r) × (r ≢ some false)))
  function-Accepts (ok none) s = (λ h. (none, (refl, λ k. absurd cc)), λ h. refl)
  function-Accepts (ok (some true)) s = (λ h. (some true, (refl, λ k. absurd cc)), λ h. refl)
  function-Accepts (ok (some false)) s =
      (λ h. absurd (not_ok value_error h), λ (r, (e, k)). absurd (k cc))
  function-Accepts (err e) s = (λ h. absurd (not_ok e h), λ (r, (k, l)). absurd cc)

  apply-Accepts :
      (schema : Schema) (event : Ref) (s : S)
      → ((apply schemas schema event s).0 ≡ ok tt) ↔ Accepts schema event s
  apply-Accepts (validator v) event s = (λ h. h, λ h. h)
  apply-Accepts (function f) event s =
      function-Accepts (schemas.call_function f event s).0 (schemas.call_function f event s).1

  -- Validation accepts an event whose type has a schema exactly when the schema accepts it: its method
  -- `validate` returns, or the callable returns something else than `False`. Every
  -- `Exception` that it raises is a SchemaValidationError; an event whose type has none is accepted
  -- without an effect.
  pub validate_lem :
      (event_type : String) (event : Ref) (r : SchemaRegistry) (s : S)
      → ((schema : Schema)
          → resolve event_type r ≡ some schema
          → (validate schemas event_type event r s).0 ≡ ok tt ↔ Accepts schema event s)
        × ((e : Exc)
            → (validate schemas event_type event r s).0 ≡ err e
            → is_exception e ≡ true
            → e ≡ schema_validation_error)
        × (resolve event_type r ≡ none → validate schemas event_type event r s ≡ (ok tt, s))
  unfolding validate
  validate_lem event_type event r s = by_schema (resolve event_type r) refl
    where
      by_schema :
          (x : Option Schema)
          → resolve event_type r ≡ x
          → ((schema : Schema)
              → x ≡ some schema
              → (validate_with schemas x event s).0 ≡ ok tt ↔ Accepts schema event s)
            × ((e : Exc)
                → (validate_with schemas x event s).0 ≡ err e
                → is_exception e ≡ true
                → e ≡ schema_validation_error)
            × (x ≡ none → validate_with schemas x event s ≡ (ok tt, s))
      by_schema none e = (λ schema h. absurd cc, λ x h k. absurd (not_ok x (sym h)), λ h. refl)
      by_schema (some schema) e =
          let o = apply schemas schema event s in
          (
            λ k h.
                let same : k ≡ schema = cc in
                let (back, forth) = normalized_ok o.0 o.1 in
                let (there, here) = apply-Accepts schema event s in
                rw same (λ x. there (back x), λ x. forth (here x)),
            λ x h k. normalized_kind o.0 o.1 x h k,
            λ h. absurd cc,
          )
