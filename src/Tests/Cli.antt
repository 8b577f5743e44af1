-- ===== src/Tests/Cli.antt =====
-- The commands, the exit code and the version, run and by the theorems.
use ovh_cli.Prelude.{String, ◌<>◌, some, List, [], ◌∷◌, ◌==◌, ◌&&◌, ◌||◌, ◌≡◌, refl, arith}
use ovh_cli.Prelude.{if◌then◌else◌, map, has_prefix}
use ovh_cli.Prelude.{Bool}
use ovh_cli.Prelude.Sort.{sort, contains, IsSorted}
use ovh_cli.Prelude.Dict.{lookup, insert, remove}
use ovh_cli.Errors.{ok}
use ovh_cli.Auth.Regions.{region_by_id}
use ovh_cli.Schema.Types.{ApiSpace, spec_version}
use ovh_cli.Schema.Querier.{lookup_path, describe}
use ovh_cli.Schema.Raw.{map_values}
use ovh_cli.Schema.Interface.{is_found}
use ovh_cli.Schema.Cache.{
  meta_path, space_path, open_cache_at, assert_secure_dir, read_meta, read_services,
}
use ovh_cli.Schema.Fetch.{
  assert_host_allowed, get_conditional, get_json, outcome, complete, fetch_api_space,
}
use ovh_cli.Schema.Refresh.{
  refresh_from, refresh_checked, read_previous_etag, write_public, write_fresh, schema_hash,
  write_hashed, old_meta, rewrite_meta_fetched_at, store_result,
}
use ovh_cli.Schema.Refresh.Writes.{IsLaidOut}
use ovh_cli.Cli.Regions.{regions, resolve_region}
use ovh_cli.Cli.Regions.Agreement.{config_of, regions-agree}
use ovh_cli.Cli.Version.{Build, resolve, unknown, first_known, resolve_lem}
use ovh_cli.Cli.Schema.Methods.{Shown, show_command-Shown}
use ovh_cli.Tests.Queries.{get_method}
use ovh_cli.Cli.Schema.{
  Print, show_method, show_methods, sorted_methods, open_cache, show_command, println,
  resolve_region_flag, refresh_command, path_command,
}
use ovh_cli.Cli.Schema.Prints.{path_command-refresh_command}
use ovh_cli.Paths.{Xdg, schema_dir, cache}
use ovh_cli.Tests.Memory.{
  MemoryFiles, memory_disk-IsAtomic, write_entry, kept_mode, is_folder, make, stat_entry,
  read_entry,
}
use ovh_cli.Tests.Memory.Blob.{
  meta_codec-IsFaithful, space_codec-IsReindenting, decode_meta, decode_space,
}
use ovh_cli.Tests.Schema.{reply, server, as_listed, cache_services, no_files}

regions-agree_example : lookup "ovh-us" regions ≡ config_of (region_by_id "ovh-us")
regions-agree_example = regions-agree "ovh-us"

abbrev dev : Build
dev = record { version = "dev"; commit = unknown; date = "2025" }

abbrev settings : List (String × String)
settings = ("vcs", "git") ∷ ("vcs.revision", "abc") ∷ ("vcs.time", "2024") ∷ []

resolve_lem_example : resolve dev (some settings) ≡ record {
  version = "dev";
  commit = if unknown == unknown then first_known "vcs.revision" settings else unknown;
  date = if "2025" == unknown then first_known "vcs.time" settings else "2025";
}
resolve_lem_example = resolve_lem dev (some settings)

abbrev pub dirs : Xdg
dirs = record {
  config_home = "/u/config";
  cache_home = "/u/cache";
  data_home = "/u/data";
  state_home = "/u/state";
  join = λ d p. d <> ("/" <> p);
}

laid_out : IsLaidOut cache_services (schema_dir dirs "ovh-eu")
unfolding meta_path space_path schema_dir cache
laid_out = record {
  files_ne = refl;
  files_ne' = refl;
  dir_ne_meta = refl;
  dir_ne_space = refl;
  meta_inside = refl;
  space_inside = refl;
}

unfoldable pub after : MemoryFiles
unfolding refresh_command resolve_region_flag resolve_region schema_dir cache refresh_from
    refresh_checked read_previous_etag write_public write_fresh schema_hash write_hashed old_meta
    rewrite_meta_fetched_at store_result reply assert_host_allowed get_conditional get_json outcome
    complete fetch_api_space contains decode_meta decode_space meta_path space_path write_entry
    kept_mode is_folder make stat_entry read_entry lookup insert remove
after = (refresh_command cache_services dirs server as_listed "" 9 no_files).1

fetched_space : ApiSpace
unfolding reply get_json outcome complete insert
fetched_space = record {
  version = spec_version;
  region = "ovh-eu";
  fetched_at = 9;
  etag = "e2";
  schema_hash = "";
  services = complete server "https://eu.api.ovh.com/1.0" ("/me" ∷ []) [];
}

path_command-refresh_command_example :
    (l : List String) × (path_command cache_services dirs after "" "/me" 10 ≡ ok (map println l))
    × IsSorted l
    × ((p : String)
        → contains l p ≡ (
            is_found (lookup_path p fetched_space.services) && ("/me" == "" || has_prefix p "/me")))
unfolding after fetched_space
path_command-refresh_command_example =
    path_command-refresh_command cache_services dirs server as_listed memory_disk-IsAtomic
      meta_codec-IsFaithful space_codec-IsReindenting "" "/me"
      (record {
        endpoint = "https://eu.api.ovh.com/1.0";
        allowed_hosts = "eu.api.ovh.com" ∷ "www.ovh.com" ∷ [];
      })
      9 10 fetched_space no_files after laid_out tt refl refl refl (ground arith)

-- Two texts that differ in case, for the one method in use.
abbrev fold_get : String → String → Bool
fold_get m method = m == method || (m == "GET" && method == "get")

get_lines : List Print
unfolding show_method lookup complete insert
get_lines = show_method (("GET", get_method) ∷ []) "/me" "GET"

get_lines-eq : show_command cache_services dirs fold_get after "" "get" "/me" 10 ≡ ok get_lines
unfolding after get_lines show_command show_methods sorted_methods describe lookup_path
    open_cache_at open_cache assert_secure_dir read_meta read_services sort map_values
get_lines-eq = refl

show_command-Shown_example : Shown cache_services dirs fold_get after "" "get" "/me" 10 get_lines
show_command-Shown_example =
    show_command-Shown cache_services dirs fold_get after "" "get" "/me" 10 get_lines get_lines-eq
