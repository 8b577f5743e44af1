-- ===== src/Schema/Interface.antt =====
-- internal/schema/querier.go: the interface `Querier`.
use ovh_cli.Prelude.{String, Bool, true, false, Option, none, some, List}
use ovh_cli.Auth.Credentials.{Time}
use ovh_cli.Schema.Types.{PathSpec}

-- `Describe` returns `(nil, false)` as `none`.
pub record Querier : Type 0 where
  pub has_path : String → String → Bool
  pub describe : String → Option PathSpec
  pub search : String → List String
  pub paths : List String
  pub region : String
  pub fetched_at : Time
  pub stale : Bool

abbrev pub is_found {ℓ} : {A : Type ℓ} → Option A → Bool
is_found none = false
is_found (some a) = true
