-- ===== src/Schema/World.antt =====
-- What internal/schema runs against: the disk, the JSON encodings, the clock and the hash.
use ovh_cli.Prelude.{String}
use ovh_cli.Prelude.Dict.{Dict}
use ovh_cli.Errors.{Result}
use ovh_cli.Platform.Disk.{Disk}
use ovh_cli.Platform.Codec.{Codec}
use ovh_cli.Schema.Types.{ApiSpace, Meta, Service}
use ovh_cli.Schema.Raw.{RawField}

-- `reindent` is what `json.MarshalIndent` makes of a raw message of a description,
-- `join` is `filepath.Join`, `services_json` is `json.Marshal` of the services, and
-- `sha256_hex` the digest in hexadecimal digits; `to_upper` is `strings.ToUpper`; `met` is
-- the order in which a call of `HasPath` for a method and a path meets the services.
pub record SchemaServices : Type 1 where
  pub disk : Disk
  pub meta_json : Codec disk.Bytes Meta
  pub space_json : Codec disk.Bytes ApiSpace
  pub reindent : RawField → String → String
  pub join : String → String → String
  pub services_json : Dict Service → Result disk.Bytes
  pub sha256_hex : disk.Bytes → String
  pub to_upper : String → String
  pub met : String → String → Dict Service → Dict Service
