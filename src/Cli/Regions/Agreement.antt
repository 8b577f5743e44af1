-- ===== src/Cli/Regions/Agreement.antt =====
-- The two registries of regions agree.
use ovh_cli.Prelude.{String, Option, none, some, ◌≡◌, arith}
use ovh_cli.Prelude.Dict.{lookup}
use ovh_cli.Auth.Regions.{Region, region_by_id, find_region}
use ovh_cli.Cli.Regions.{RegionConfig, regions}

abbrev pub config_of : Option Region → Option RegionConfig
config_of none = none
config_of (some r) =
    some (record { endpoint = r.endpoint_url; allowed_hosts = r.validation_host_pattern })

-- The commands' registry gives for every name what the registry of the credentials gives: the same
-- endpoint and allowed hosts, or none.
pub regions-agree : (id : String) → lookup id regions ≡ config_of (region_by_id id)
unfolding lookup region_by_id find_region
regions-agree id = ground arith
