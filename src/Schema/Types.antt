-- ===== src/Schema/Types.antt =====
-- internal/schema/types.go. Raw JSON is kept as its text.
use ovh_cli.Prelude.{ℕ, String, List}
use ovh_cli.Prelude.Dict.{Dict}
use ovh_cli.Auth.Credentials.{Time}

abbrev pub spec_version : ℕ
spec_version = 1

pub record MethodSpec : Type 0 where
  pub description : String
  pub auth : List String
  pub params : String
  pub response : String

-- Methods by name, such as "GET".
abbrev pub PathSpec : Type 0
PathSpec = Dict MethodSpec

pub record Service : Type 0 where
  pub description : String
  pub paths : Dict PathSpec
  pub error : String
  pub models : String

pub record ApiSpace : Type 0 where
  pub version : ℕ
  pub region : String
  pub fetched_at : Time
  pub etag : String
  pub schema_hash : String
  pub services : Dict Service

pub record Meta : Type 0 where
  pub version : ℕ
  pub region : String
  pub fetched_at : Time
  pub etag : String
  pub schema_hash : String
