-- ===== src/SchemaRegistry.antt =====
-- src/eventful/schemas/__init__.py: the in-memory registry of schemas. The lock makes each operation
-- on the table one step; validation runs outside it.
pub mod Verdict
pub mod Tests
use eventful.Base.{Bool, true, false, ℕ, String, Option, none, some, if◌then◌else◌, str_eq}
use eventful.Base.Dict
use eventful.Base.Dict.{Dict}
use eventful.Event.{Ref}
use eventful.Exceptions.{
  Exc, Result, ok, err, is_exception, value_error, type_error, schema_validation_error,
}
use eventful.Runtime.{Comp, pure, raise, ◌>>=◌, ◌>>◌, attempt}

-- An object with a `validate` method, or else a callable.
pub data Schema : Type 0 where
  validator : ℕ → Schema
  function : ℕ → Schema

abbrev pub SchemaRegistry : Type 0
SchemaRegistry = Dict Schema

-- `register`; an object that is no schema is `none`.
unfoldable pub register : String → Option Schema → SchemaRegistry → Result SchemaRegistry
register event_type none r = if str_eq event_type "" then err value_error else err type_error
register event_type (some schema) r =
    if str_eq event_type "" then err value_error else ok (Dict.put event_type schema r)

-- `unregister`
unfoldable pub unregister : String → SchemaRegistry → Bool × SchemaRegistry
unregister event_type r = (Dict.contains event_type r, Dict.del event_type r)

-- `resolve`
unfoldable pub resolve : String → SchemaRegistry → Option Schema
resolve event_type r = Dict.get event_type r

-- What the application's schemas do with an event; a callable may return a Boolean.
pub record Schemas (S : Type 0) : Type 0 where
  pub call_validate : ℕ → Ref → Comp S (Unit {0})
  pub call_function : ℕ → Ref → Comp S (Option Bool)

module _ {S : Type 0} (schemas : Schemas S) where
  abbrev pub accepted : Option Bool → Comp S (Unit {0})
  accepted (some false) = raise value_error
  accepted (some true) = pure tt
  accepted none = pure tt

  -- The body of `try`.
  abbrev pub apply : Schema → Ref → Comp S (Unit {0})
  apply (validator v) event = schemas.call_validate v event
  apply (function f) event = schemas.call_function f event >>= accepted

  -- The `except` clauses.
  abbrev pub normalized : Result (Unit {0}) → Comp S (Unit {0})
  normalized (ok _) = pure tt
  normalized (err schema_validation_error) = raise schema_validation_error
  normalized (err e) = if is_exception e then raise schema_validation_error else raise e

  abbrev pub validate_with : Option Schema → Ref → Comp S (Unit {0})
  validate_with none event = pure tt
  validate_with (some schema) event = do outcome ← attempt (apply schema event); normalized outcome

  -- `validate`, of an event of this type
  unfoldable pub validate : (event_type : String) → Ref → SchemaRegistry → Comp S (Unit {0})
  unfolding resolve
  validate event_type event r = validate_with (resolve event_type r) event
