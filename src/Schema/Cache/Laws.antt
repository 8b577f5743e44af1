-- ===== src/Schema/Cache/Laws.antt =====
-- Which caches open.
use Prim.Native.Nat.{bit_and}
use ovh_cli.Prelude.{ℕ, String, ◌≡◌, refl, arith, eq_iff}
use ovh_cli.Prelude.Dict.{Dict}
use ovh_cli.Errors.{Result, ok, err, panic}
use ovh_cli.Platform.Disk.{
  Stat, missing, stat_failed, dir, file, Contents, no_file, read_failed, bytes,
}
use ovh_cli.Auth.Credentials.{Time}
use ovh_cli.Schema.Types.{Meta, Service, ApiSpace, spec_version}
use ovh_cli.Schema.World.{SchemaServices}
use ovh_cli.Schema.Querier.{CachedQuerier}
use ovh_cli.Schema.Cache.{
  meta_path, space_path, open_cache_at, assert_secure_dir, read_meta, read_services,
}

module _ (S : SchemaServices) (s : S.disk.State) where
  open S use {disk, meta_json, space_json}

  -- A directory closed to other users.
  abbrev pub IsPrivate : String → Type 0
  IsPrivate path = (k : ℕ) × (disk.stat s path ≡ dir k) × (bit_and k 0o077 ≡ 0)

  -- The file decodes to the head.
  abbrev pub IsHead : String → Meta → Type 0
  IsHead path m =
      (b : disk.Bytes) × (disk.read_file s path ≡ bytes b) × (meta_json.unmarshal b ≡ ok m)

  -- The file decodes to a description with the services.
  abbrev pub IsDescription : String → Dict Service → Type 0
  IsDescription path d =
      (b : disk.Bytes) × (space : ApiSpace) × (disk.read_file s path ≡ bytes b)
      × (space_json.unmarshal b ≡ ok space)
      × (space.services ≡ d)

  secure : (path : String) → assert_secure_dir S s path ≡ ok tt → IsPrivate path
  unfolding assert_secure_dir
  secure path h = by_stat (disk.stat s path) refl h
    where
      by_stat :
          (t : Stat) → disk.stat s path ≡ t → assert_secure_dir S s path ≡ ok tt → IsPrivate path
      by_stat missing e h = ground arith
      by_stat (stat_failed x) e h = ground arith
      by_stat (file m) e h = ground arith
      by_stat (dir m) e h = (m, e, ground arith)

  decoded_meta : (path : String) (m : Meta) → read_meta S s path ≡ ok m → IsHead path m
  unfolding read_meta
  decoded_meta path m h = by_contents (disk.read_file s path) refl h
    where
      by_contents :
          (t : Contents disk.Bytes)
          → disk.read_file s path ≡ t
          → read_meta S s path ≡ ok m
          → IsHead path m
      by_contents no_file e h = ground arith
      by_contents (read_failed x) e h = ground arith
      by_contents (bytes b) e h = (b, e, ground arith)

  decoded_services :
      (path : String) (d : Dict Service) → read_services S s path ≡ ok d → IsDescription path d
  unfolding read_services
  decoded_services path d h = by_contents (disk.read_file s path) refl h
    where
      by_bytes :
          (b : disk.Bytes) (r : Result ApiSpace)
          → space_json.unmarshal b ≡ r
          → disk.read_file s path ≡ bytes b
          → read_services S s path ≡ ok d
          → IsDescription path d
      by_bytes b (ok space) q e h = (b, space, e, q, ground arith)
      by_bytes b (err x) q e h = ground arith
      by_bytes b (panic x) q e h = ground arith

      by_contents :
          (t : Contents disk.Bytes)
          → disk.read_file s path ≡ t
          → read_services S s path ≡ ok d
          → IsDescription path d
      by_contents no_file e h = ground arith
      by_contents (read_failed x) e h = ground arith
      by_contents (bytes b) e h = by_bytes b (space_json.unmarshal b) refl e h

  -- A cache that opens is a directory closed to other users, its head is of this version and of the
  -- region that was asked for, and the querier answers from the head and the services that its two
  -- files hold.
  pub open_cache_at_sound :
      (path region : String) (now : Time) (q : CachedQuerier)
      → open_cache_at S s path region now ≡ ok q
      → IsPrivate path
        × (q.meta.version ≡ spec_version)
        × (q.meta.region ≡ region)
        × IsHead (meta_path S path) q.meta
        × IsDescription (space_path S path) q.services
        × (q.now ≡ now)
  unfolding open_cache_at
  open_cache_at_sound path region now q h = (
    secure path (ground arith),
    ground arith,
    ground (arith, eq_iff q.meta.region region),
    decoded_meta (meta_path S path) q.meta (ground arith),
    decoded_services (space_path S path) q.services (ground arith),
    ground arith,
  )
