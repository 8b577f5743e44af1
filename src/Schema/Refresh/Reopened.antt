-- ===== src/Schema/Refresh/Reopened.antt =====
-- What the two ways of a refresh leave for the next opening of the cache.
use Prim.Native.Nat.{bit_and}
use ovh_cli.Prelude.{ℕ, String, false, ◌≡◌, refl, ◌∙◌, arith, ◌==◌, eq_refl, eqb}
use ovh_cli.Prelude.{Option, none, some}
use ovh_cli.Errors.{Error, Result, ok, err, sentinel, cache_corrupt}
use ovh_cli.Effect.{Effect, chain}
use ovh_cli.Platform.Disk.{Stat, missing, stat_failed, dir, file, bytes, IsAtomic}
use ovh_cli.Platform.Codec.{IsFaithful}
use ovh_cli.Schema.Raw.{IsReindenting, reindented_services}
use ovh_cli.Auth.Credentials.{Time}
use ovh_cli.Schema.Types.{Meta, ApiSpace, spec_version}
use ovh_cli.Schema.World.{SchemaServices}
use ovh_cli.Schema.Querier.{CachedQuerier}
use ovh_cli.Schema.Cache.{
  meta_path, space_path, open_cache_at, assert_secure_dir, read_meta, read_services,
}
use ovh_cli.Schema.Fetch.{FetchResult, not_modified, modified}
use ovh_cli.Schema.Refresh.{read_previous_etag, meta_of, refresh_checked, store_result, made}
use ovh_cli.Schema.Refresh.Writes.{IsLaidOut, hashed, write_fresh-read, rewrite_meta-read, bumped}

-- The directory is closed to other users, or not there yet.
abbrev pub IsPrivateOrMissing : Stat → Type 0
IsPrivateOrMissing missing = Unit
IsPrivateOrMissing (stat_failed e) = ⊥
IsPrivateOrMissing (file m) = ⊥
IsPrivateOrMissing (dir m) = bit_and m 0o077 ≡ 0

module _ (S : SchemaServices) (path : String) where
  open S use {disk, meta_json, space_json}

  -- An opening that passes every check.
  pub open_cache_at-ok :
      (s : disk.State) (region : String) (now : Time) (k : ℕ) (head body : disk.Bytes) (m : Meta)
      (space : ApiSpace)
      → (region == "") ≡ false
      → disk.stat s path ≡ dir k
      → bit_and k 0o077 ≡ 0
      → disk.read_file s (meta_path S path) ≡ bytes head
      → meta_json.unmarshal head ≡ ok m
      → m.version ≡ spec_version
      → m.region ≡ region
      → disk.read_file s (space_path S path) ≡ bytes body
      → space_json.unmarshal body ≡ ok space
      → open_cache_at S s path region now
        ≡ ok (record { meta = m; services = space.services; now = now })
  unfolding open_cache_at assert_secure_dir read_meta read_services
  open_cache_at-ok s region now k head body m space hr hd hk h₁ h₂ hv hm h₃ h₄ =
      ground (arith, eq_refl region)

  module _ (A : IsAtomic disk) (F : IsFaithful meta_json) (out : IsLaidOut S path) where
    -- The directory after `os.MkdirAll`.
    private_dir :
        (t : Stat) (s : disk.State)
        → (disk.mkdir_all s path 0o700).0 ≡ none
        → disk.stat s path ≡ t
        → IsPrivateOrMissing t
        → (k : ℕ) × (disk.stat (disk.mkdir_all s path 0o700).1 path ≡ dir k) × (bit_and k 0o077 ≡ 0)
    private_dir missing s made e h =
        (disk.umasked 0o700, A.stat-mkdir_new s path 0o700 made e, A.umasked_private 0o700 refl)
    private_dir (stat_failed x) s made e h = absurd h
    private_dir (file m) s made e h = absurd h
    private_dir (dir m) s made e h = (m, A.stat-mkdir_old s path 0o700 m e, h)

    made-chain :
        (made_dir : Option Error × disk.State) (f : Unit {0} → Effect disk.State (Unit {0}))
        {s' : disk.State}
        → chain (made S made_dir) f ≡ (ok tt, s')
        → (made_dir.0 ≡ none) × (f tt made_dir.1 ≡ (ok tt, s'))
    unfolding made
    made-chain (none, s) f h = (refl, h)
    made-chain (some e, s) f h = cc

    -- After a refresh that was told that nothing changed, the cache opens on the old description,
    -- fetched now, if its old head and description were readable and of this version and region.
    pub not_modified-opens :
        (fetch : String → Result FetchResult) (region : String) (now later : Time) (etag : String)
        (m : Meta) (old body : disk.Bytes) (space : ApiSpace) (s s' : disk.State)
        → refresh_checked S fetch path now s ≡ (ok tt, s')
        → fetch (read_previous_etag S s path) ≡ ok (not_modified etag)
        → disk.read_file s (meta_path S path) ≡ bytes old
        → meta_json.unmarshal old ≡ ok m
        → disk.read_file s (space_path S path) ≡ bytes body
        → space_json.unmarshal body ≡ ok space
        → m.version ≡ spec_version
        → m.region ≡ region
        → (region == "") ≡ false
        → IsPrivateOrMissing (disk.stat s path)
        → open_cache_at S s' path region later
          ≡ ok (record { meta = bumped m etag now; services = space.services; now = later })
    unfolding refresh_checked store_result
    not_modified-opens fetch region now later etag m old body space s s' h e h₁ h₂ h₃ h₄ hv hm hr
          hd =
        let (made_ok, r) = made-chain (disk.mkdir_all s path 0o700) _ (rw e at h) in
        let (k, d, private) = private_dir _ s made_ok refl hd in
        let (head, m₁, m₂, body_same, same) =
          rewrite_meta-read S A F path out m old etag now _ s'
            (A.read-mkdir s path (meta_path S path) 0o700 out.meta_inside ∙ h₁) h₂ r in
        open_cache_at-ok s' region later k head body _ _ hr (same ∙ d) private m₁ m₂ hv hm
          (body_same ∙ A.read-mkdir s path (space_path S path) 0o700 out.space_inside ∙ h₃) h₄

    -- The version in the old head is another one.
    pub other_version-corrupt :
        (fetch : String → Result FetchResult) (region : String) (now later : Time) (etag : String)
        (m : Meta) (old : disk.Bytes) (s s' : disk.State)
        → refresh_checked S fetch path now s ≡ (ok tt, s')
        → fetch (read_previous_etag S s path) ≡ ok (not_modified etag)
        → disk.read_file s (meta_path S path) ≡ bytes old
        → meta_json.unmarshal old ≡ ok m
        → eqb m.version spec_version ≡ false
        → (region == "") ≡ false
        → IsPrivateOrMissing (disk.stat s path)
        → open_cache_at S s' path region later ≡ err (sentinel cache_corrupt)
    unfolding refresh_checked store_result open_cache_at assert_secure_dir read_meta
    other_version-corrupt fetch region now later etag m old s s' h e h₁ h₂ hv hr hd =
        let (made_ok, r) = made-chain (disk.mkdir_all s path 0o700) _ (rw e at h) in
        let (k, d, private) = private_dir _ s made_ok refl hd in
        let (head, m₁, m₂, body_same, same) =
          rewrite_meta-read S A F path out m old etag now _ s'
            (A.read-mkdir s path (meta_path S path) 0o700 out.meta_inside ∙ h₁) h₂ r in
        ground (arith, same ∙ d)

  module _ (A : IsAtomic disk) (F : IsFaithful meta_json) (G : IsReindenting space_json S.reindent)
      (out : IsLaidOut S path) where
    -- The querier on a description with its hash.
    abbrev hashed_querier : ApiSpace → String → Time → CachedQuerier
    hashed_querier space hash later = record {
      meta = meta_of S (hashed space hash);
      services = reindented_services S.reindent space.services;
      now = later;
    }

    -- After a refresh that was given a new description, the cache opens on that description as it is
    -- read back, fetched now.
    pub modified-opens :
        (fetch : String → Result FetchResult) (region : String) (now later : Time)
        (space : ApiSpace) (s s' : disk.State)
        → refresh_checked S fetch path now s ≡ (ok tt, s')
        → fetch (read_previous_etag S s path) ≡ ok (modified space)
        → (space.version ≡ spec_version) × (space.region ≡ region) × (space.fetched_at ≡ now)
        → (region == "") ≡ false
        → IsPrivateOrMissing (disk.stat s path)
        → (hash : String) × (open_cache_at S s' path region later
            ≡ ok (hashed_querier space hash later))
    unfolding refresh_checked store_result
    modified-opens fetch region now later space s s' h e (hv, hm, hn) hr hd =
        let (m, r) = made-chain A F out (disk.mkdir_all s path 0o700) _ (rw e at h) in
        let (k, d, private) = private_dir A F out _ s m refl hd in
        let (hash, body, head, b₁, b₂, m₁, m₂, same) =
          write_fresh-read S A F G path out space _ s' r in
        (
          hash,
          open_cache_at-ok s' region later k head body _ _ hr (same ∙ d) private m₁ m₂ hv hm b₁ b₂,
        )
