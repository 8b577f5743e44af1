-- ===== src/Schema/Refresh/Fails.antt =====
-- Refreshes that fail before the first write.
use ovh_cli.Prelude.{String, List, ◌≡◌, ◌≢◌, arith}
use ovh_cli.Errors.{Error, ok, err}
use ovh_cli.Auth.Credentials.{Time}
use ovh_cli.Schema.World.{SchemaServices}
use ovh_cli.Schema.Fetch.{Http, fetch_api_space}
use ovh_cli.Schema.Refresh.{read_previous_etag, refresh_checked, refresh_from}

module _ (S : SchemaServices) (H : Http) (schedule : List String → List String)
    (region endpoint : String) (hosts : List String) (path : String) (now : Time)
    (s : S.disk.State) where
  -- A refresh whose fetch returns an error does not succeed and leaves the disk as it was, whatever
  -- the region, the endpoint and the allowed hosts.
  pub refresh_from-unfetched :
      (e : Error)
      → fetch_api_space H schedule region endpoint hosts (read_previous_etag S s path) now ≡ err e
      → ((refresh_from S H schedule region endpoint hosts path now s).0 ≢ ok tt)
        × ((refresh_from S H schedule region endpoint hosts path now s).1 ≡ s)
  unfolding refresh_from refresh_checked
  refresh_from-unfetched e h = (ground arith, ground arith)
