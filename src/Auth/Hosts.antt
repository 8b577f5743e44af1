-- ===== src/Auth/Hosts.antt =====
-- internal/auth/hostsyml.go: the shape of hosts.yml.
use ovh_cli.Prelude.{ℕ, String, List}
use ovh_cli.Prelude.Dict.{Dict}
use ovh_cli.Auth.Credentials.{Time}

abbrev pub hosts_yml_version : ℕ
hosts_yml_version = 1

pub record HostProfile : Type 0 where
  pub access_token : String
  pub refresh_token : String
  pub expiry : Time
  pub account : String
  pub last_validated_at : Time
  pub scopes_granted : List String

pub record HostRegion : Type 0 where
  pub profiles : Dict HostProfile

pub record HostsFile : Type 0 where
  pub version : ℕ
  pub hosts : Dict HostRegion
