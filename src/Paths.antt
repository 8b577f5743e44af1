-- ===== src/Paths.antt =====
-- internal/xdgpaths/paths.go, over github.com/adrg/xdg and `filepath.Join`.
use ovh_cli.Prelude.{String}

pub record Xdg : Type 0 where
  pub config_home : String
  pub cache_home : String
  pub data_home : String
  pub state_home : String
  pub join : String → String → String

abbrev app_dir : String
app_dir = "ovh"

module _ (X : Xdg) where
  open X use {join}

  unfoldable pub config : String
  config = join X.config_home app_dir

  unfoldable pub cache : String
  cache = join X.cache_home app_dir

  -- `Data`
  unfoldable pub data_dir : String
  data_dir = join X.data_home app_dir

  unfoldable pub state : String
  state = join X.state_home app_dir

  unfoldable pub config_file : String
  config_file = join config "ovh.conf"

  unfoldable pub hosts_file : String
  hosts_file = join config "hosts.yml"

  -- `Join` of three elements is `Join` of the first two joined with the third.
  unfoldable pub schema_dir : String → String
  schema_dir region = join (join cache "schema") region

  unfoldable pub catalog_dir : String → String
  catalog_dir region = join (join cache "catalog") region

  unfoldable pub log_file : String
  log_file = join (join state "logs") "ovh.log"
