-- ===== src/Schema/Refresh/Opens.antt =====
-- What a refresh leaves for the next opening of the cache.
use ovh_cli.Prelude.{String, false, ◌≡◌, refl, arith, ◌==◌}
use ovh_cli.Prelude.{List, ◌≤◌, ◌+◌, ◌≢◌}
use ovh_cli.Errors.{Result, ok, err, sentinel, cache_corrupt}
use ovh_cli.Platform.Disk.{bytes, IsAtomic}
use ovh_cli.Platform.Codec.{IsFaithful}
use ovh_cli.Schema.Raw.{IsReindenting, reindented_services}
use ovh_cli.Auth.Credentials.{Time}
use ovh_cli.Schema.Types.{Meta, ApiSpace, spec_version}
use ovh_cli.Schema.World.{SchemaServices}
use ovh_cli.Schema.Querier.{CachedQuerier, stale, default_cache_ttl}
use ovh_cli.Schema.Cache.{meta_path, space_path, open_cache_at}
use ovh_cli.Schema.Fetch.{Http, FetchResult, not_modified, modified, fetch_api_space}
use ovh_cli.Schema.Fetch.Laws.{fetch_api_space-head}
use ovh_cli.Schema.Refresh.{read_previous_etag, meta_of, refresh_checked, refresh_from}
use ovh_cli.Schema.Refresh.Writes.{IsLaidOut, hashed, bumped}
use ovh_cli.Schema.Refresh.Reopened.{
  IsPrivateOrMissing, modified-opens, not_modified-opens, other_version-corrupt,
}

module _ (S : SchemaServices) (path : String) where
  open S use {disk, meta_json, space_json}

  module _ (A : IsAtomic disk) (F : IsFaithful meta_json) (out : IsLaidOut S path) where
    module _ (H : Http) (schedule : List String → List String) (region endpoint : String)
        (hosts : List String) (now later : Time) (s s' : disk.State)
        (refreshed : refresh_from S H schedule region endpoint hosts path now s ≡ (ok tt, s'))
        (secure : IsPrivateOrMissing (disk.stat s path)) where
      fetched : String → Result FetchResult
      fetched prev_etag = fetch_api_space H schedule region endpoint hosts prev_etag now

      past_guards : ((region == "") ≡ false) × (refresh_checked S fetched path now s ≡ (ok tt, s'))
      unfolding refresh_from fetched
      past_guards = ground arith

      -- After a refresh that fetched a new description into a private or new directory, the cache
      -- opens with exactly the services that were fetched, their raw JSON laid out as the encoder
      -- does, with the time of the refresh, and is not stale for the following 24 hours.
      pub refresh_from-opens :
          IsReindenting space_json S.reindent
          → (space : ApiSpace)
          → fetch_api_space H schedule region endpoint hosts (read_previous_etag S s path) now
            ≡ ok (modified space)
          → later ≤ now + default_cache_ttl
          → (q : CachedQuerier) × (open_cache_at S s' path region later ≡ ok q)
            × (q.services ≡ reindented_services S.reindent space.services)
            × (q.meta.fetched_at ≡ now)
            × (stale q ≡ false)
      unfolding fetched stale
      refresh_from-opens G space e fresh =
          let head = fetch_api_space-head H schedule region endpoint hosts _ now space e in
          let (hash, opened) =
            modified-opens S path A F G out fetched region now later space s s' past_guards.1 e head
              past_guards.0 secure in
          (
            record {
              meta = meta_of S (hashed space hash);
              services = reindented_services S.reindent space.services;
              now = later;
            },
            opened,
            refl,
            head.2,
            ground (arith, head.2),
          )

      -- After a refresh that was answered with 304, a readable cache in a private directory whose
      -- head was of this version and region opens with its old services and the time of the
      -- refresh, and is not stale for the following 24 hours.
      pub refresh_from-opens_unchanged :
          (etag : String) (m : Meta) (old body : disk.Bytes) (space : ApiSpace)
          → fetch_api_space H schedule region endpoint hosts (read_previous_etag S s path) now
            ≡ ok (not_modified etag)
          → disk.read_file s (meta_path S path) ≡ bytes old
          → meta_json.unmarshal old ≡ ok m
          → disk.read_file s (space_path S path) ≡ bytes body
          → space_json.unmarshal body ≡ ok space
          → m.version ≡ spec_version
          → m.region ≡ region
          → later ≤ now + default_cache_ttl
          → (q : CachedQuerier) × (open_cache_at S s' path region later ≡ ok q)
            × (q.services ≡ space.services)
            × (q.meta.fetched_at ≡ now)
            × (stale q ≡ false)
      unfolding fetched stale
      refresh_from-opens_unchanged etag m old body space e h₁ h₂ h₃ h₄ hv hm fresh = (
        record { meta = bumped m etag now; services = space.services; now = later },
        not_modified-opens S path A F out fetched region now later etag m old body space s s'
            past_guards.1 e h₁ h₂ h₃ h₄ hv hm past_guards.0 secure,
        refl,
        refl,
        ground arith,
      )

      -- A cache whose head has another version stays corrupt through a refresh that succeeds and
      -- that the server answered with 304.
      pub refresh_from-stuck_version :
          (etag : String) (m : Meta) (old : disk.Bytes)
          → fetch_api_space H schedule region endpoint hosts (read_previous_etag S s path) now
            ≡ ok (not_modified etag)
          → disk.read_file s (meta_path S path) ≡ bytes old
          → meta_json.unmarshal old ≡ ok m
          → m.version ≢ spec_version
          → open_cache_at S s' path region later ≡ err (sentinel cache_corrupt)
      unfolding fetched
      refresh_from-stuck_version etag m old e h₁ h₂ hv =
          other_version-corrupt S path A F out fetched region now later etag m old s s'
            past_guards.1 e h₁ h₂ (ground arith) past_guards.0 secure
