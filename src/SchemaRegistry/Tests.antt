-- ===== src/SchemaRegistry/Tests.antt =====
-- Runs of the schema registry, and its theorems at concrete inputs.
use eventful.Base.{true, false, String, none, some, [], ◌∷◌, ◌≡◌, ◌↔◌, refl, str_eq, if◌then◌else◌}
use eventful.Base.Dict
use eventful.Exceptions.{Exc, ok, err, is_exception, type_error, schema_validation_error}
use eventful.SchemaRegistry.{
  Schema, validator, function, SchemaRegistry, Schemas, register, unregister, resolve, validate,
}
use eventful.SchemaRegistry.Verdict.{Accepts, register_lem, validate_lem}

-- Validators raise TypeError, functions return false.
abbrev strict : Schemas (Unit {0})
strict = record {
  call_validate = λ v event s. (err type_error, s);
  call_function = λ f event s. (ok (some false), s);
}

abbrev orders : SchemaRegistry
orders = ("order", validator 0) ∷ ("item", function 1) ∷ []

refused_run : (validate strict "item" 0 orders tt).0 ≡ err schema_validation_error
unfolding validate resolve Dict.get
refused_run = refl

register_lem_example :
    (r' : SchemaRegistry) × (register "user" (some (function 2)) orders ≡ ok r')
    × ((t : String)
        → resolve t r' ≡ (if str_eq "user" t then some (function 2) else resolve t orders))
    × ((unregister "user" r').0 ≡ true)
    × (resolve "user" (unregister "user" r').1 ≡ none)
    × (resolve "user" orders ≡ none → (unregister "user" r').1 ≡ orders)
register_lem_example = register_lem "user" (function 2) orders refl

validate_lem_example :
    ((schema : Schema)
      → resolve "order" orders ≡ some schema
      → (validate strict "order" 0 orders tt).0 ≡ ok tt ↔ Accepts strict schema 0 tt)
    × ((e : Exc)
        → (validate strict "order" 0 orders tt).0 ≡ err e
        → is_exception e ≡ true
        → e ≡ schema_validation_error)
    × (resolve "order" orders ≡ none → validate strict "order" 0 orders tt ≡ (ok tt, tt))
validate_lem_example = validate_lem strict "order" 0 orders tt
