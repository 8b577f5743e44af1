-- ===== src/Platform/Codec.antt =====
-- An encoding of a Go value as bytes: gopkg.in/yaml.v3 and encoding/json, at one type.
use ovh_cli.Prelude.{◌≡◌}
use ovh_cli.Errors.{Result, ok}

pub record Codec (Bytes A : Type 0) : Type 0 where
  pub marshal : A → Result Bytes
  pub unmarshal : Bytes → Result A

-- What was encoded decodes to the same value.
pub record IsFaithful {B A : Type 0} (c : Codec B A) : Type 0 where
  pub unmarshal-marshal : (a : A) (b : B) → c.marshal a ≡ ok b → c.unmarshal b ≡ ok a
