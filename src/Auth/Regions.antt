-- ===== src/Auth/Regions.antt =====
-- internal/auth/regions.go: the registry of regions and the check of a URL's host.
pub mod Registry
use ovh_cli.Prelude.{String, Bool, true, false, not, Option, none, some, List, [], ◌∷◌, ◌==◌}
use ovh_cli.Prelude.{if◌then◌else◌}
use ovh_cli.Prelude.Sort.{contains}
use ovh_cli.Errors.{Result, ◌>>=◌, ◌>>◌, ensure, wrap_err, errorf}

pub record Region : Type 0 where
  pub id : String
  pub display_name : String
  pub endpoint_url : String
  pub portal_create_app_url : String
  pub oauth2_issuer : String
  pub oauth2_default_scopes : List String
  pub validation_host_pattern : List String

-- What the program reads of the result of `url.Parse`.
pub record Url : Type 0 where
  pub scheme : String
  pub user : Option String
  pub host : String

abbrev pub ovh_eu : Region
ovh_eu = record {
  id = "ovh-eu";
  display_name = "OVHcloud Europe";
  endpoint_url = "https://eu.api.ovh.com/1.0";
  portal_create_app_url = "https://eu.api.ovh.com/createApp/";
  oauth2_issuer = "https://www.ovh.com/auth";
  oauth2_default_scopes = "account:get" ∷ [];
  validation_host_pattern = "eu.api.ovh.com" ∷ "www.ovh.com" ∷ [];
}

abbrev pub ovh_us : Region
ovh_us = record {
  id = "ovh-us";
  display_name = "OVHcloud US";
  endpoint_url = "https://api.us.ovhcloud.com/1.0";
  portal_create_app_url = "https://api.us.ovhcloud.com/createApp/";
  oauth2_issuer = "";
  oauth2_default_scopes = [];
  validation_host_pattern = "api.us.ovhcloud.com" ∷ "us.ovhcloud.com" ∷ [];
}

abbrev pub ovh_ca : Region
ovh_ca = record {
  id = "ovh-ca";
  display_name = "OVHcloud Canada";
  endpoint_url = "https://ca.api.ovh.com/1.0";
  portal_create_app_url = "https://ca.api.ovh.com/createApp/";
  oauth2_issuer = "";
  oauth2_default_scopes = [];
  validation_host_pattern = "ca.api.ovh.com" ∷ "ca.ovh.com" ∷ [];
}

abbrev pub kimsufi_eu : Region
kimsufi_eu = record {
  id = "kimsufi-eu";
  display_name = "Kimsufi Europe";
  endpoint_url = "https://eu.api.kimsufi.com/1.0";
  portal_create_app_url = "https://eu.api.kimsufi.com/createApp/";
  oauth2_issuer = "";
  oauth2_default_scopes = [];
  validation_host_pattern = "eu.api.kimsufi.com" ∷ "www.kimsufi.com" ∷ [];
}

abbrev pub kimsufi_ca : Region
kimsufi_ca = record {
  id = "kimsufi-ca";
  display_name = "Kimsufi Canada";
  endpoint_url = "https://ca.api.kimsufi.com/1.0";
  portal_create_app_url = "https://ca.api.kimsufi.com/createApp/";
  oauth2_issuer = "";
  oauth2_default_scopes = [];
  validation_host_pattern = "ca.api.kimsufi.com" ∷ "ca.kimsufi.com" ∷ [];
}

abbrev pub soyoustart_eu : Region
soyoustart_eu = record {
  id = "soyoustart-eu";
  display_name = "SoYouStart Europe";
  endpoint_url = "https://eu.api.soyoustart.com/1.0";
  portal_create_app_url = "https://eu.api.soyoustart.com/createApp/";
  oauth2_issuer = "";
  oauth2_default_scopes = [];
  validation_host_pattern = "eu.api.soyoustart.com" ∷ "www.soyoustart.com" ∷ [];
}

abbrev pub soyoustart_ca : Region
soyoustart_ca = record {
  id = "soyoustart-ca";
  display_name = "SoYouStart Canada";
  endpoint_url = "https://ca.api.soyoustart.com/1.0";
  portal_create_app_url = "https://ca.api.soyoustart.com/createApp/";
  oauth2_issuer = "";
  oauth2_default_scopes = [];
  validation_host_pattern = "ca.api.soyoustart.com" ∷ "ca.soyoustart.com" ∷ [];
}

-- The registry, in its order.
abbrev pub regions : List Region
regions = ovh_eu ∷ ovh_us ∷ ovh_ca ∷ kimsufi_eu ∷ kimsufi_ca ∷ soyoustart_eu ∷ soyoustart_ca ∷ []

unfoldable pub find_region : String → List Region → Option Region
find_region id [] = none
find_region id (r ∷ rest) = if r.id == id then some r else find_region id rest

-- `RegionByID`; `none` is `(Region{}, false)`.
unfoldable pub region_by_id : String → Option Region
unfolding find_region
region_by_id id = find_region id regions

abbrev pub has_user : Option String → Bool
has_user none = false
has_user (some _) = true

-- `ValidateHost`, over the URL parser of net/url.
unfoldable pub validate_host : (String → Result Url) → String → List String → Result (Unit {0})
validate_host parse_url u allowed_hosts = do
  parsed ← wrap_err "auth: parse url: %w" [] (parse_url u)
  ensure (parsed.scheme == "https") (errorf "auth: url %q is not https" (u ∷ []))
  ensure (not (has_user parsed.user)) (errorf "auth: url %q has userinfo component" (u ∷ []))
  ensure (contains allowed_hosts parsed.host)
      (errorf "auth: url host %q not in allowed list" (parsed.host ∷ []))
