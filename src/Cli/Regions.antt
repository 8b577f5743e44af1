-- ===== src/Cli/Regions.antt =====
-- internal/cli/schema/regions.go: the second registry of regions, and resolving a region by it.
pub mod Agreement
pub mod Resolves
use ovh_cli.Prelude.{String, ◌<>◌, Option, none, some, List, [], ◌∷◌}
use ovh_cli.Prelude.Sort.{sort}
use ovh_cli.Prelude.Dict.{Dict, lookup}
use ovh_cli.Errors.{Result, ok, err, errorf}

pub record RegionConfig : Type 0 where
  pub endpoint : String
  pub allowed_hosts : List String

abbrev config : String → String → String → RegionConfig
config endpoint host site = record { endpoint = endpoint; allowed_hosts = host ∷ site ∷ [] }

abbrev pub regions : Dict RegionConfig
regions =
    ("ovh-eu", config "https://eu.api.ovh.com/1.0" "eu.api.ovh.com" "www.ovh.com")
    ∷ ("ovh-us", config "https://api.us.ovhcloud.com/1.0" "api.us.ovhcloud.com" "us.ovhcloud.com")
    ∷ ("ovh-ca", config "https://ca.api.ovh.com/1.0" "ca.api.ovh.com" "ca.ovh.com")
    ∷ ("kimsufi-eu", config "https://eu.api.kimsufi.com/1.0" "eu.api.kimsufi.com" "www.kimsufi.com")
    ∷ ("kimsufi-ca", config "https://ca.api.kimsufi.com/1.0" "ca.api.kimsufi.com" "ca.kimsufi.com")
    ∷ (
      "soyoustart-eu",
      config "https://eu.api.soyoustart.com/1.0" "eu.api.soyoustart.com" "www.soyoustart.com",
    )
    ∷ (
      "soyoustart-ca",
      config "https://ca.api.soyoustart.com/1.0" "ca.api.soyoustart.com" "ca.soyoustart.com",
    )
    ∷ []

keys : Dict RegionConfig → List String
keys [] = []
keys ((id, _) ∷ rest) = id ∷ keys rest

unfoldable pub region_ids : List String
unfolding keys
region_ids = sort (keys regions)

-- `strings.Join`
abbrev pub join_with : String → List String → String
join_with separator [] = ""
join_with separator (s ∷ []) = s
join_with separator (s ∷ t ∷ rest) = s <> (separator <> join_with separator (t ∷ rest))

resolved : String → Option RegionConfig → Result RegionConfig
resolved id none =
    err (errorf "unknown region %q (one of: %s)" (id ∷ join_with ", " region_ids ∷ []))
resolved id (some rc) = ok rc

unfoldable pub resolve_region : String → Result RegionConfig
unfolding resolved
resolve_region id = resolved id (lookup id regions)
