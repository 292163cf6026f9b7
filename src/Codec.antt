-- ===== src/Codec.antt =====
-- src/eventful/contracts/__init__.py: the contract of codecs, which stores and transports use.
use eventful.Base.{String}
use eventful.Event.{Event}
use eventful.Exceptions.{Result}

-- `B` is the type of the bytes.
pub record Codec (B : Type 0) : Type 0 where
  pub media_type : String
  pub encode : Event → Result B
  pub decode : B → Result Event
