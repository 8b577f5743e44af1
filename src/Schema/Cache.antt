-- ===== src/Schema/Cache.antt =====
-- internal/schema/cache.go: opening the cached description of a region.
pub mod Laws
use Prim.Native.Nat.{bit_and}
use ovh_cli.Prelude.{String, not, [], ◌∷◌, ◌==◌, eqb}
use ovh_cli.Prelude.Dict.{Dict}
use ovh_cli.Errors.{
  Result, ok, err, panic, ◌>>=◌, ◌>>◌, ensure, assert, errorf, wrapf, sentinel, no_cache,
  cache_corrupt, cache_perms,
}
use ovh_cli.Platform.Disk.{missing, stat_failed, dir, file, no_file, read_failed, bytes}
use ovh_cli.Auth.Credentials.{Time}
use ovh_cli.Schema.Types.{Meta, Service, spec_version}
use ovh_cli.Schema.Querier.{CachedQuerier}
use ovh_cli.Schema.World.{SchemaServices}

-- A decoding error becomes `ErrCacheCorrupt` with the error's text.
abbrev corrupt {ℓ} : {A : Type ℓ} → String → Result A → Result A
corrupt format (ok a) = ok a
corrupt format (err e) = err (wrapf format [] (sentinel cache_corrupt))
corrupt format (panic m) = panic m

module _ (S : SchemaServices) where
  open S use {disk, meta_json, space_json, join}

  unfoldable pub meta_path : String → String
  meta_path path = join path "apispace.meta.json"

  unfoldable pub space_path : String → String
  space_path path = join path "apispace.json"

  unfoldable pub assert_secure_dir : disk.State → String → Result (Unit {0})
  assert_secure_dir s path = elim (disk.stat s path) [
    | missing ↦ err (sentinel no_cache)
    | stat_failed e ↦ err (wrapf "schema: stat cache dir: %w" [] e)
    | file m ↦ err (errorf "schema: cache path %q is not a directory" (path ∷ []))
    | dir m ↦ ensure (eqb (bit_and m 0o077) 0) (sentinel cache_perms)
  ]

  unfoldable pub read_meta : disk.State → String → Result Meta
  read_meta s path = elim (disk.read_file s path) [
    | no_file ↦ err (sentinel no_cache)
    | read_failed e ↦ err (wrapf "schema: read apispace.meta.json: %w" [] e)
    | bytes b ↦ corrupt "%w: meta: %v" (meta_json.unmarshal b)
  ]

  unfoldable pub read_services : disk.State → String → Result (Dict Service)
  read_services s path = elim (disk.read_file s path) [
    | no_file ↦ err (sentinel no_cache)
    | read_failed e ↦ err (wrapf "schema: read apispace.json: %w" [] e)
    | bytes b ↦ corrupt "%w: spec: %v" (space_json.unmarshal b) >>= λ as_. ok as_.services
  ]

  -- `openCacheAt`, with the clock's value when the querier is asked.
  unfoldable pub open_cache_at : disk.State → String → String → Time → Result CachedQuerier
  open_cache_at s path region now =
      assert (not (region == "")) "schema.OpenCache: region must not be empty"
      >> assert_secure_dir s path
      >> (read_meta s (meta_path path) >>= λ meta.
          ensure (eqb meta.version spec_version) (sentinel cache_corrupt)
          >> ensure (meta.region == region) (sentinel cache_corrupt)
          >> (read_services s (space_path path) >>= λ services.
              ok (record { meta = meta; services = services; now = now })))
