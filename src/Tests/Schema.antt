-- ===== src/Tests/Schema.antt =====
-- The fetch, the refresh and the opening of the cache, run and by the theorems.
use ovh_cli.Prelude.{String, Bool, true, false, none, some, List, [], ◌∷◌, ◌==◌, ◌≡◌, refl}
use ovh_cli.Prelude.{◌<>◌, if◌then◌else◌, arith}
use ovh_cli.Prelude.Sort.{contains}
use ovh_cli.Prelude.Dict.{lookup, insert, remove}
use ovh_cli.Schema.Cache.{assert_secure_dir, read_meta, read_services}
use ovh_cli.Errors.{answered, Result, ok, err, sentinel, cache_corrupt}
use ovh_cli.Schema.Types.{Meta, ApiSpace, spec_version}
use ovh_cli.Schema.World.{SchemaServices}
use ovh_cli.Schema.Querier.{CachedQuerier, stale}
use ovh_cli.Schema.Cache.{open_cache_at, meta_path, space_path}
use ovh_cli.Schema.Fetch.{
  Http, Response, modified, assert_host_allowed, get_conditional, get_json, outcome, complete,
  fetch_api_space,
}
use ovh_cli.Schema.Fetch.Laws.{described, fetch_api_space-services}
use ovh_cli.Schema.Refresh.{
  refresh_from, refresh_checked, read_previous_etag, write_public, write_fresh, schema_hash,
  write_hashed, old_meta, rewrite_meta_fetched_at, store_result,
}
use ovh_cli.Schema.Refresh.Writes.{IsLaidOut}
use ovh_cli.Schema.Cache.Laws.{open_cache_at_sound, IsPrivate, IsHead, IsDescription}
use ovh_cli.Schema.Refresh.Opens.{
  refresh_from-opens, refresh_from-opens_unchanged, refresh_from-stuck_version,
}
use ovh_cli.Tests.Memory.{
  MemoryFiles, folder, plain, memory_disk, memory_disk-IsAtomic, write_entry, kept_mode, is_folder,
  make, stat_entry, read_entry,
}
use ovh_cli.Tests.Memory.Blob.{
  indent, meta_codec, space_codec, meta_codec-IsFaithful, space_codec-IsReindenting, decode_meta,
  decode_space, meta_blob, space_blob, services_blob,
}
use ovh_cli.Schema.Raw.{reindented_services}
use ovh_cli.Tests.Queries.{me, ip, head, parse_url}

-- The index lists one service; the server answers 304 to the ETag "e1".
unfoldable pub reply : Bool → Response (Unit {0})
reply true = record { status = 304; etag = ""; body = tt }
reply false = record { status = 200; etag = "e2"; body = tt }

abbrev pub server : Http
server = record {
  Bytes = Unit {0};
  get = λ target etag. answered (reply (etag == "e1"));
  decode_index = λ limit b. answered ("/me" ∷ []);
  decode_service = λ limit b. answered me;
  error_text = λ e. "failed";
  parse_url = parse_url;
}

abbrev pub as_listed : List String → List String
as_listed index = index

abbrev pub hosts : List String
hosts = "eu.api.ovh.com" ∷ []

abbrev pub endpoint : String
endpoint = "https://eu.api.ovh.com"

fetch_api_space-services_example :
    (space : ApiSpace) × (fetch_api_space server as_listed "ovh-eu" endpoint hosts "" 9
      ≡ ok (modified space))
    × ((p : String)
        → lookup p space.services
          ≡ (if contains ("/me" ∷ []) p then some (described server endpoint p) else none))
unfolding reply assert_host_allowed get_conditional contains
fetch_api_space-services_example =
    fetch_api_space-services server as_listed "ovh-eu" endpoint hosts "" 9 "e2" ("/me" ∷ [])
      (λ p. refl) refl refl

abbrev pub cache_services : SchemaServices
cache_services = record {
  disk = memory_disk;
  meta_json = meta_codec;
  space_json = space_codec;
  reindent = indent;
  join = λ d p. d <> ("/" <> p);
  services_json = λ services. ok (services_blob services);
  sha256_hex = λ b. "h";
  to_upper = λ s. s;
  met = λ method path services. services;
}

pub laid_out : IsLaidOut cache_services "/cache"
unfolding meta_path space_path
laid_out = record {
  files_ne = refl;
  files_ne' = refl;
  dir_ne_meta = refl;
  dir_ne_space = refl;
  meta_inside = refl;
  space_inside = refl;
}

abbrev pub no_files : MemoryFiles
no_files = record { entries = []; locked = "" }

abbrev pub old_space : ApiSpace
old_space = record {
  version = 1;
  region = "ovh-eu";
  fetched_at = 5;
  etag = "e1";
  schema_hash = "h";
  services = ("/ip", ip) ∷ [];
}

-- A cache with a head and a description.
abbrev pub cached : Meta → MemoryFiles
cached m = record {
  entries =
      ("/cache", folder 0o700)
      ∷ ("/cache/apispace.meta.json", plain 0o644 (meta_blob m))
      ∷ ("/cache/apispace.json", plain 0o644 (space_blob old_space))
      ∷ [];
  locked = "";
}

abbrev refreshed : MemoryFiles → Result (Unit {0}) × MemoryFiles
refreshed s = refresh_from cache_services server as_listed "ovh-eu" endpoint hosts "/cache" 9 s

after : MemoryFiles → MemoryFiles
unfolding refresh_from refresh_checked read_previous_etag write_public write_fresh schema_hash
    write_hashed old_meta rewrite_meta_fetched_at store_result reply assert_host_allowed
    get_conditional get_json outcome complete fetch_api_space contains decode_meta decode_space
    meta_path space_path write_entry kept_mode is_folder make stat_entry read_entry lookup insert
    remove
after s = (refreshed s).1

ends_well : (refreshed no_files).0 ≡ ok tt
unfolding after
ends_well = refl

refreshed-eq : refreshed no_files ≡ (ok tt, after no_files)
unfolding after
refreshed-eq = refl

fetched_space : ApiSpace
unfolding reply get_json outcome complete insert
fetched_space = record {
  version = spec_version;
  region = "ovh-eu";
  fetched_at = 9;
  etag = "e2";
  schema_hash = "";
  services = complete server endpoint ("/me" ∷ []) [];
}

fetched-eq :
    fetch_api_space server as_listed "ovh-eu" endpoint hosts
      (read_previous_etag cache_services no_files "/cache")
      9
    ≡ ok (modified fetched_space)
unfolding after fetched_space
fetched-eq = refl

refresh_from-opens_example :
    (q : CachedQuerier) × (open_cache_at cache_services (after no_files) "/cache" "ovh-eu" 10
      ≡ ok q)
    × (q.services ≡ reindented_services indent fetched_space.services)
    × (q.meta.fetched_at ≡ 9)
    × (stale q ≡ false)
unfolding after
refresh_from-opens_example =
    refresh_from-opens cache_services "/cache" memory_disk-IsAtomic meta_codec-IsFaithful laid_out
      server as_listed "ovh-eu" endpoint hosts 9 10 no_files (after no_files) refreshed-eq tt
      space_codec-IsReindenting fetched_space fetched-eq (ground arith)

refresh_from-opens_unchanged_example :
    (q : CachedQuerier) × (open_cache_at cache_services (after (cached head)) "/cache" "ovh-eu" 10
      ≡ ok q)
    × (q.services ≡ old_space.services)
    × (q.meta.fetched_at ≡ 9)
    × (stale q ≡ false)
unfolding after
refresh_from-opens_unchanged_example =
    refresh_from-opens_unchanged cache_services "/cache" memory_disk-IsAtomic meta_codec-IsFaithful
      laid_out server as_listed "ovh-eu" endpoint hosts 9 10 (cached head) (after (cached head))
      refl refl "e1" head (meta_blob head) (space_blob old_space) old_space refl refl refl refl refl
      refl refl (ground arith)

abbrev other_head : Meta
other_head = record head { version = 2 }

refresh_from-stuck_version_example :
    open_cache_at cache_services (after (cached other_head)) "/cache" "ovh-eu" 10
    ≡ err (sentinel cache_corrupt)
unfolding after
refresh_from-stuck_version_example =
    refresh_from-stuck_version cache_services "/cache" memory_disk-IsAtomic meta_codec-IsFaithful
      laid_out server as_listed "ovh-eu" endpoint hosts 9 10 (cached other_head)
      (after (cached other_head)) refl refl "e1" other_head (meta_blob other_head) refl refl refl
      (ground arith)

unfoldable pub opened : String → Result CachedQuerier
unfolding open_cache_at assert_secure_dir read_meta read_services after
opened region = open_cache_at cache_services (cached head) "/cache" region 10

abbrev pub opened_querier : CachedQuerier
opened_querier = record { meta = head; services = old_space.services; now = 10 }

open_cache_at_sound_example :
    IsPrivate cache_services (cached head) "/cache"
    × (opened_querier.meta.version ≡ spec_version)
    × (opened_querier.meta.region ≡ "ovh-eu")
    × IsHead cache_services (cached head) (meta_path cache_services "/cache") opened_querier.meta
    × IsDescription cache_services
        (cached head)
        (space_path cache_services "/cache")
        opened_querier.services
    × (opened_querier.now ≡ 10)
unfolding opened
open_cache_at_sound_example =
    open_cache_at_sound cache_services (cached head) "/cache" "ovh-eu" 10 opened_querier refl
