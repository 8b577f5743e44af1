-- ===== src/Cli/Schema/Prints.antt =====
-- What the commands print and do.
use ovh_cli.Prelude.{
  String, false, none, some, List, ◌==◌, ◌&&◌, ◌||◌, ◌≡◌, refl, ◌∙◌, map, ◌≤◌, ◌+◌, has_prefix,
}
use ovh_cli.Prelude.{subst}
use ovh_cli.Prelude.Sort.{contains, IsSorted}
use ovh_cli.Errors.{Error, ok, err}
use ovh_cli.Effect.{chain}
use ovh_cli.Platform.Disk.{IsAtomic}
use ovh_cli.Platform.Codec.{IsFaithful}
use ovh_cli.Schema.Raw.{IsReindenting, lookup_path-reindented}
use ovh_cli.Auth.Credentials.{Time}
use ovh_cli.Auth.Regions.{Region, region_by_id}
use ovh_cli.Schema.Types.{ApiSpace}
use ovh_cli.Schema.Querier.{search, describe, lookup_path, default_cache_ttl}
use ovh_cli.Schema.Querier.Laws.{search_lem}
use ovh_cli.Schema.Interface.{is_found}
use ovh_cli.Schema.Fetch.{Http, fetch_api_space, modified}
use ovh_cli.Schema.Refresh.{refresh_from, refresh_checked, read_previous_etag, is_nil}
use ovh_cli.Schema.Refresh.Writes.{IsLaidOut}
use ovh_cli.Schema.Refresh.Opens.{refresh_from-opens}
use ovh_cli.Schema.Refresh.Reopened.{IsPrivateOrMissing}
use ovh_cli.Schema.World.{SchemaServices}
use ovh_cli.Cli.Regions.{RegionConfig, resolve_region}
use ovh_cli.Cli.Regions.Resolves.{
  resolve_region-known, resolve_region-unknown, unknown_region, region_by_id-IsUsable,
}
use ovh_cli.Cli.Schema.{println, resolve_region_flag, open_cache, refresh_command, path_command}
use ovh_cli.Paths.{Xdg, schema_dir}

module _ (S : SchemaServices) (X : Xdg) (H : Http) (schedule : List String → List String) where
  refresh_from-checked :
      (region endpoint : String) (hosts : List String) (path : String) (now : Time)
      (s : S.disk.State)
      → (region == "") ≡ false
      → (endpoint == "") ≡ false
      → is_nil hosts ≡ false
      → refresh_from S H schedule region endpoint hosts path now s
        ≡ refresh_checked S
            (λ prev_etag. fetch_api_space H schedule region endpoint hosts prev_etag now)
            path
            now
            s
  unfolding refresh_from
  refresh_from-checked region endpoint hosts path now s h₁ h₂ h₃ = rw (h₁, h₂, h₃)

  refresh_known_region :
      (region : String) (r : Region) (now : Time) (s : S.disk.State)
      → region_by_id region ≡ some r
      → chain
          (resolve_region region, s)
          (λ rc.
            refresh_from S H schedule region rc.endpoint rc.allowed_hosts (schema_dir X region) now)
        ≡ refresh_checked S
            (λ prev_etag.
              fetch_api_space H schedule region r.endpoint_url r.validation_host_pattern prev_etag
                now)
            (schema_dir X region)
            now
            s
  refresh_known_region region r now s h =
      let ((named, served, hosted), same) = region_by_id-IsUsable region r h in
      rw (resolve_region-known region r h) (
        refresh_from-checked region r.endpoint_url r.validation_host_pattern (schema_dir X region)
          now s (subst (λ i. (i == "") ≡ false) same named) served hosted)

  -- For a region of the credentials' registry, `schema refresh` fetches from that region's endpoint,
  -- with its hosts allowed, into the region's directory, and none of the checks of `refreshFrom`
  -- panics.
  pub refresh_command-regions :
      (flag : String) (r : Region) (now : Time) (s : S.disk.State)
      → region_by_id (resolve_region_flag flag) ≡ some r
      → refresh_command S X H schedule flag now s
        ≡ refresh_checked S
            (λ prev_etag.
              fetch_api_space H schedule r.id r.endpoint_url r.validation_host_pattern prev_etag
                now)
            (schema_dir X r.id)
            now
            s
  unfolding refresh_command
  refresh_command-regions flag r now s h =
      let (_, same) = region_by_id-IsUsable (resolve_region_flag flag) r h in
      rw same (refresh_known_region (resolve_region_flag flag) r now s h)

  -- For any other name it returns an error and changes nothing.
  refresh_command_unknown :
      (flag : String) (now : Time) (s : S.disk.State)
      → region_by_id (resolve_region_flag flag) ≡ none
      → (e : Error) × (refresh_command S X H schedule flag now s ≡ (err e, s))
  unfolding refresh_command
  refresh_command_unknown flag now s h = (
    unknown_region (resolve_region_flag flag),
    rw (resolve_region-unknown (resolve_region_flag flag) h) refl,
  )

  module _ (A : IsAtomic S.disk) (F : IsFaithful S.meta_json)
      (G : IsReindenting S.space_json S.reindent) where
    -- After `schema refresh` for a known region fetched a new description into a private or new
    -- directory and succeeded, `schema path` prints, for the following 24 hours, exactly the paths of
    -- that description that begin with the prefix, one to a line in ascending order.
    pub path_command-refresh_command :
        (flag prefix : String) (rc : RegionConfig) (now later : Time) (space : ApiSpace)
        (s s' : S.disk.State)
        → IsLaidOut S (schema_dir X (resolve_region_flag flag))
        → IsPrivateOrMissing (S.disk.stat s (schema_dir X (resolve_region_flag flag)))
        → resolve_region (resolve_region_flag flag) ≡ ok rc
        → fetch_api_space H schedule
            (resolve_region_flag flag)
            rc.endpoint
            rc.allowed_hosts
            (read_previous_etag S s (schema_dir X (resolve_region_flag flag)))
            now
          ≡ ok (modified space)
        → refresh_command S X H schedule flag now s ≡ (ok tt, s')
        → later ≤ now + default_cache_ttl
        → (l : List String) × (path_command S X s' flag prefix later ≡ ok (map println l))
          × IsSorted l
          × ((p : String)
              → contains l p ≡ (
                  is_found (lookup_path p space.services) && (prefix == "" || has_prefix p prefix)))
    unfolding refresh_command path_command open_cache describe
    path_command-refresh_command flag prefix rc now later space s s' out secure known fetched done
          fresh =
        let (q, opened, services, _, _) =
          refresh_from-opens S (schema_dir X (resolve_region_flag flag)) A F out H schedule
            (resolve_region_flag flag) rc.endpoint rc.allowed_hosts now later s s'
            (rw known at done) secure G space fetched fresh in
        let (sorted, found) = search_lem q prefix in
        (
          search q prefix,
          rw opened refl,
          sorted,
          λ p. found p ∙ rw services (rw (lookup_path-reindented S.reindent p space.services) refl),
        )
