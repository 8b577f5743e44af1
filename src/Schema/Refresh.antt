-- ===== src/Schema/Refresh.antt =====
-- internal/schema/refresh.go: fetching the description anew and rewriting the cache.
pub mod Writes
pub mod Reopened
pub mod Opens
pub mod Fails
pub mod Serving
pub mod Attempts
pub mod Calm
pub mod Steps
use ovh_cli.Prelude.{
  String, Bool, true, false, not, Option, none, some, List, [], ◌∷◌, ◌==◌, if◌then◌else◌,
}
use ovh_cli.Errors.{Error, Result, ok, err, panic, ◌>>=◌, errorf, wrapf, wrap_err}
use ovh_cli.Effect.{Effect, chain, lift, ◌>>=◌ as ◌⟫=◌}
use ovh_cli.Platform.Disk.{Contents, no_file, read_failed, bytes}
use ovh_cli.Auth.Credentials.{Time}
use ovh_cli.Prelude.{◌<>◌}
use ovh_cli.Prelude.Dict.{Dict}
use ovh_cli.Schema.Types.{Meta, ApiSpace, Service}
use ovh_cli.Schema.Cache.{meta_path, space_path}
use ovh_cli.Schema.Fetch.{Http, FetchResult, not_modified, modified, fetch_api_space}
use ovh_cli.Schema.World.{SchemaServices}

abbrev etag_or_empty : Result Meta → String
etag_or_empty (ok m) = m.etag
etag_or_empty (err e) = ""
etag_or_empty (panic m) = ""

-- `len(allowedHosts) == 0`
abbrev pub is_nil : List String → Bool
is_nil [] = true
is_nil (_ ∷ _) = false

module _ (S : SchemaServices) where
  open S use {disk, meta_json, space_json}

  unfoldable pub read_previous_etag : disk.State → String → String
  read_previous_etag s path = elim (disk.read_file s (meta_path S path)) [
    | no_file ↦ ""
    | read_failed e ↦ ""
    | bytes b ↦ etag_or_empty (meta_json.unmarshal b)
  ]

  pub done : String → Option Error × disk.State → Result (Unit {0}) × disk.State
  done format (none, s) = (ok tt, s)
  done format (some e, s) = (err (wrapf format [] e), s)

  -- `renameio.WriteFile` with the error that its caller makes of it.
  unfoldable pub write_public : String → String → disk.Bytes → Effect disk.State (Unit {0})
  unfolding done
  write_public format path b s = done format (disk.write_file s path b 0o644)

  abbrev pub meta_of : ApiSpace → Meta
  meta_of as_ = record {
    version = as_.version;
    region = as_.region;
    fetched_at = as_.fetched_at;
    etag = as_.etag;
    schema_hash = as_.schema_hash;
  }

  unfoldable pub schema_hash : Dict Service → Result String
  schema_hash services =
      wrap_err "schema: hash services: %w" [] (S.services_json services) >>= λ body.
      ok ("sha256:" <> S.sha256_hex body)

  -- `writeFresh` after the hash.
  unfoldable pub write_hashed : String → ApiSpace → Effect disk.State (Unit {0})
  write_hashed path hashed =
      lift (wrap_err "schema: marshal apispace: %w" [] (space_json.marshal hashed)) ⟫= λ body.
      write_public "schema: write apispace.json: %w" (space_path S path) body ⟫= λ _.
      lift (wrap_err "schema: marshal meta: %w" [] (meta_json.marshal (meta_of hashed))) ⟫= λ meta.
      write_public "schema: write apispace.meta.json: %w" (meta_path S path) meta

  unfoldable pub write_fresh : String → ApiSpace → Effect disk.State (Unit {0})
  write_fresh path space = lift (schema_hash space.services) ⟫= λ hash.
      write_hashed path (record space { schema_hash = hash })

  unfoldable pub old_meta : disk.State → String → Result Meta
  old_meta s path = elim (disk.read_file s (meta_path S path)) [
    | no_file ↦ err (errorf "schema: read meta for refresh: no such file" [])
    | read_failed e ↦ err (wrapf "schema: read meta for refresh: %w" [] e)
    | bytes b ↦ wrap_err "schema: parse meta: %w" [] (meta_json.unmarshal b)
  ]

  unfoldable pub rewrite_meta_fetched_at : String → String → Time → Effect disk.State (Unit {0})
  rewrite_meta_fetched_at path etag now s =
      chain (old_meta s path, s)
        λ m s₁.
          let bumped : Meta = record m {
            fetched_at = now;
            etag = if etag == "" then m.etag else etag;
          } in
          chain (wrap_err "schema: marshal meta: %w" [] (meta_json.marshal bumped), s₁)
            λ out. write_public "%w" (meta_path S path) out

  pub made : Option Error × disk.State → Result (Unit {0}) × disk.State
  made (none, s) = (ok tt, s)
  made (some e, s) = (err (wrapf "schema: mkdir cache: %w" [] e), s)

  unfoldable pub store_result : String → Time → FetchResult → Effect disk.State (Unit {0})
  store_result path now (not_modified etag) = rewrite_meta_fetched_at path etag now
  store_result path now (modified space) = write_fresh path space

  -- `refreshFrom` after its checks: the fetch is given the previous ETag.
  unfoldable pub refresh_checked :
      (String → Result FetchResult) → String → Time → Effect disk.State (Unit {0})
  unfolding made
  refresh_checked fetch path now s =
      chain (fetch (read_previous_etag s path), s)
        λ result s₁. chain (made (disk.mkdir_all s₁ path 0o700)) λ _. store_result path now result

  -- `refreshFrom`; a nil context is outside the model.
  unfoldable pub refresh_from :
      Http
      → (List String → List String)
      → String
      → String
      → List String
      → String
      → Time
      → Effect disk.State (Unit {0})
  refresh_from H schedule region endpoint allowed_hosts path now s =
      if region == ""
      then (panic "schema.Refresh: region must not be empty", s)
      else if endpoint == ""
      then (panic "schema.Refresh: endpoint must not be empty", s)
      else if is_nil allowed_hosts
      then (panic "schema.Refresh: allowedHosts must be non-empty (PRD-05 threat model)", s)
      else refresh_checked
          (λ prev_etag. fetch_api_space H schedule region endpoint allowed_hosts prev_etag now) path
          now s
