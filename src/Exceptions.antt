-- ===== src/Exceptions.antt =====
-- src/eventful/exceptions.py, src/eventful/stop_propagation.py and the exceptions of Python that
-- the library raises or lets through. An exception is its class; messages are not modelled.
use eventful.Base.{Bool, true, false, String}

pub data Exc : Type 0 where
  -- Python's
  value_error type_error key_error runtime_error os_error : Exc
  -- subclasses of ValueError: UnicodeDecodeError and UnicodeEncodeError; json.JSONDecodeError
  unicode_error json_decode_error : Exc
  -- eventful.exceptions
  configuration_error contract_error schema_validation_error codec_error : Exc
  store_error optimistic_concurrency_error transport_error async_dispatch_required : Exc
  -- eventful.stop_propagation
  stop_propagation : Exc
  -- another subclass of `Exception`, and a `BaseException` that is none (KeyboardInterrupt,
  -- asyncio.CancelledError)
  exception base_exception : String → Exc

-- `except Exception` takes it
abbrev pub is_exception : Exc → Bool
is_exception (base_exception _) = false
is_exception _ = true

-- `except StoreError` takes it
abbrev pub is_store_error : Exc → Bool
is_store_error store_error = true
is_store_error optimistic_concurrency_error = true
is_store_error _ = false

pub data Result {ℓ} (A : Type ℓ) : Type ℓ where
  ok : A → Result A
  err : Exc → Result A

-- `if test: raise e`
abbrev pub raise_if : Bool → Exc → Result (Unit {0})
raise_if true e = err e
raise_if false e = ok tt

-- What follows a call: an exception passes it by.
infixl 5 ◌>>=◌
abbrev pub ◌>>=◌ {ℓ κ} : {A : Type ℓ} {B : Type κ} → Result A → (A → Result B) → Result B
err raised >>= continuation = err raised
ok value >>= continuation = continuation value

infixl 5 ◌>>◌
abbrev pub ◌>>◌ {ℓ} : {A : Type ℓ} → Result (Unit {0}) → Result A → Result A
err raised >> continuation = err raised
ok _ >> continuation = continuation
