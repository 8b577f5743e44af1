-- ===== src/Schema/Fetch.antt =====
-- internal/schema/fetch.go: the index request, the concurrent requests for the services, and the
-- check of the endpoint's host.
pub mod Laws
use ovh_cli.Prelude.{
  ℕ, String, ◌<>◌, ◌*◌, Bool, true, false, Option, none, some, List, [], ◌∷◌, ◌==◌, eqb,
}
use ovh_cli.Prelude.{if◌then◌else◌}
use ovh_cli.Prelude.Sort.{contains}
use ovh_cli.Prelude.Dict.{Dict, insert}
use ovh_cli.Errors.{
  Answer, answered, unanswered, to_result, Error, Result, ok, err, panic, ◌>>=◌, ◌>>◌, ensure,
  errorf, wrap_err,
}
use ovh_cli.Auth.Credentials.{Time}
use ovh_cli.Auth.Regions.{Url}
use ovh_cli.Schema.Types.{ApiSpace, Service, spec_version}

-- 32 MiB.
abbrev pub max_response_bytes : ℕ
max_response_bytes = 32 * 1024 * 1024

pub record Response (Bytes : Type 0) : Type 0 where
  pub status : ℕ
  pub etag : String
  pub body : Bytes

-- Building and sending a GET request with a value for If-None-Match, or "" for none; decoding at
-- most so many bytes of a body; `Error()`; `url.Parse`. The first three return their errors: a panic
-- in one of them would end the process.
pub record Http : Type 1 where
  pub Bytes : Type 0
  pub get : String → String → Answer (Response Bytes)
  pub decode_index : ℕ → Bytes → Answer (List String)
  pub decode_service : ℕ → Bytes → Answer Service
  pub error_text : Error → String
  pub parse_url : String → Result Url

-- The outcome of a fetch; `not_modified` is a 304 answer with the ETag that goes with it.
pub data FetchResult : Type 0 where
  not_modified : String → FetchResult
  modified : ApiSpace → FetchResult

-- What `getConditional` returns; the index is there only where it was modified.
pub data Conditional : Type 0 where
  unchanged : String → Conditional
  changed : String → List String → Conditional

-- `assertHostAllowed`
unfoldable pub assert_host_allowed :
    (String → Result Url) → String → List String → Result (Unit {0})
assert_host_allowed parse_url endpoint allowed = do
  u ← wrap_err "schema: parse endpoint: %w" [] (parse_url endpoint)
  ensure (u.scheme == "https") (errorf "schema: endpoint %q is not https" (endpoint ∷ []))
  ensure (contains allowed u.host)
      (errorf "schema: endpoint host %q not in allowedHosts" (u.host ∷ []))

module _ (H : Http) where
  unfoldable pub answer : String → Response H.Bytes → Result Conditional
  answer if_none_match resp =
      if eqb resp.status 304
      then ok (unchanged (if resp.etag == "" then if_none_match else resp.etag))
      else if eqb resp.status 200
      then (to_result (H.decode_index max_response_bytes resp.body) >>= λ index.
          ok (changed resp.etag index))
      else err (errorf "HTTP %d %s" [])

  unfoldable pub get_conditional : String → String → Result Conditional
  unfolding answer
  get_conditional target if_none_match =
      to_result (H.get target if_none_match) >>= answer if_none_match

  decoded_service : Answer (Response H.Bytes) → Answer Service
  decoded_service (answered resp) =
      if eqb resp.status 200
      then H.decode_service max_response_bytes resp.body
      else unanswered (errorf "HTTP %d %s" [])
  decoded_service (unanswered e) = unanswered e

  unfoldable pub get_json : String → Answer Service
  unfolding decoded_service
  get_json target = decoded_service (H.get target "")

  failed_service : String → Service
  failed_service text = record { description = ""; paths = []; error = text; models = "" }

  -- What a goroutine writes for its path; a failed request is recorded in the service.
  unfoldable pub outcome : Answer Service → Service
  unfolding failed_service
  outcome (answered svc) = svc
  outcome (unanswered e) = failed_service (H.error_text e)

  -- The goroutines' writes to the map, one at a time under the lock, in the order of the schedule.
  unfoldable pub complete : String → List String → Dict Service → Dict Service
  complete endpoint [] services = services
  complete endpoint (p ∷ rest) services =
      complete endpoint rest
        (insert p (outcome (get_json (endpoint <> (p <> "?format=json")))) services)

  -- `fetchAPISpace`. The schedule orders the entries of the index as the goroutines finish.
  unfoldable pub fetch_api_space :
      (List String → List String)
      → String
      → String
      → List String
      → String
      → Time
      → Result FetchResult
  fetch_api_space schedule region endpoint allowed_hosts prev_etag now =
      assert_host_allowed H.parse_url endpoint allowed_hosts
      >> (wrap_err "schema: list services: %w" []
            (get_conditional (endpoint <> "/?format=json") prev_etag)
          >>= λ reply. elim reply [
            | unchanged etag ↦ ok (not_modified etag)
            | changed etag index ↦ ok (
                modified (record {
                  version = spec_version;
                  region = region;
                  fetched_at = now;
                  etag = etag;
                  schema_hash = "";
                  services = complete endpoint (schedule index) [];
                }))
          ])
