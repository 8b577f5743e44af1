-- ===== src/Schema/Refresh/Attempts.antt =====
-- A call of `refreshFrom` with the answers that it meets.
use ovh_cli.Prelude.{String, false, List, ◌≡◌}
use ovh_cli.Prelude.{arith, ◌==◌}
use ovh_cli.Prelude.Dict.{Dict}
use ovh_cli.Errors.{ok}
use ovh_cli.Auth.Credentials.{Time}
use ovh_cli.Schema.Types.{ApiSpace, Service}
use ovh_cli.Schema.Raw.{reindented_services}
use ovh_cli.Schema.World.{SchemaServices}
use ovh_cli.Schema.Querier.{CachedQuerier}
use ovh_cli.Schema.Cache.{open_cache_at}
use ovh_cli.Schema.Fetch.{Http, modified, fetch_api_space}

-- One call of `refreshFrom`, with the answers it meets.
pub record Attempt : Type 1 where
  pub http : Http
  pub schedule : List String → List String
  pub endpoint : String
  pub hosts : List String
  pub now : Time

module _ (S : SchemaServices) (path region : String) where
  open S use {disk, meta_json, space_json}

  -- The attempt's servers answer some request for the description with the services, up to the
  -- layout of the raw JSON in them.
  abbrev pub HasFetched : Attempt → Dict Service → Type 0
  HasFetched a d =
      (etag : String) × (space : ApiSpace) × (fetch_api_space a.http a.schedule region a.endpoint
          a.hosts etag a.now
        ≡ ok (modified space))
      × (reindented_services S.reindent space.services ≡ d)

  pub nonempty :
      (s : disk.State) (now : Time) (q : CachedQuerier)
      → open_cache_at S s path region now ≡ ok q
      → (region == "") ≡ false
  unfolding open_cache_at
  nonempty s now q h = ground arith
