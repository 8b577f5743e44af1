-- ===== src/Schema/Fetch/Laws.antt =====
-- What a fetch collects, whatever the order in which its requests finish, and which endpoints it
-- accepts.
use ovh_cli.Prelude.{String, ◌<>◌, none, some, List, [], ◌∷◌, ◌≡◌, refl, ◌∙◌}
use ovh_cli.Prelude.{◌↔◌, ap, arith, eq_iff, if◌then◌else◌}
use ovh_cli.Prelude.Sort.{contains}
use ovh_cli.Prelude.Dict.{Dict, lookup, insert, lookup-insert}
use ovh_cli.Errors.{Result, ok, err, panic}
use ovh_cli.Auth.Credentials.{Time}
use ovh_cli.Schema.Types.{Service, ApiSpace, spec_version}
use ovh_cli.Schema.Fetch.{
  Http, get_json, get_conditional, changed, outcome, complete, fetch_api_space, modified,
  assert_host_allowed,
}
use ovh_cli.Auth.Regions.{Url, validate_host}

module _ (H : Http) (endpoint : String) where
  -- What the request for a service's path gives.
  abbrev pub described : String → Service
  described p = outcome H (get_json H (endpoint <> (p <> "?format=json")))

  lookup-complete :
      (schedule : List String) (services : Dict Service) (p : String)
      → lookup p (complete H endpoint schedule services)
        ≡ (if contains schedule p then some (described p) else lookup p services)
  unfolding complete contains
  lookup-complete [] services p = refl
  lookup-complete (q ∷ rest) services p =
      lookup-complete rest (insert q (described q) services) p
      ∙ ground (
        arith,
        lookup-insert q p (described q) services,
        eq_iff q p,
        λ (e : q ≡ p). ap described e,
      )

-- If the host is allowed and the index is answered with 200, the fetch succeeds whatever the
-- requests for the services give, and its services are exactly those of the index, each with its
-- description or its error, in every order in which the requests finish.
pub fetch_api_space-services :
    (H : Http) (schedule : List String → List String) (region endpoint : String)
    (allowed_hosts : List String) (prev_etag : String) (now : Time) (etag : String)
    (index : List String)
    → ((p : String) → contains (schedule index) p ≡ contains index p)
    → assert_host_allowed H.parse_url endpoint allowed_hosts ≡ ok tt
    → get_conditional H (endpoint <> "/?format=json") prev_etag ≡ ok (changed etag index)
    → (space : ApiSpace) × (fetch_api_space H schedule region endpoint allowed_hosts prev_etag now
        ≡ ok (modified space))
      × ((p : String)
          → lookup p space.services
            ≡ (if contains index p then some (described H endpoint p) else none))
unfolding fetch_api_space lookup
fetch_api_space-services H schedule region endpoint hosts prev_etag now etag index same allowed
      got =
    (
      record {
        version = spec_version;
        region = region;
        fetched_at = now;
        etag = etag;
        schema_hash = "";
        services = complete H endpoint (schedule index) [];
      },
      rw (allowed, got),
      λ p. lookup-complete H endpoint (schedule index) [] p ∙ rw same,
    )

-- What a fetch that was answered with 200 has put in the description's head.
pub fetch_api_space-head :
    (H : Http) (schedule : List String → List String) (region endpoint : String)
    (allowed_hosts : List String) (prev_etag : String) (now : Time) (space : ApiSpace)
    → fetch_api_space H schedule region endpoint allowed_hosts prev_etag now ≡ ok (modified space)
    → (space.version ≡ spec_version) × (space.region ≡ region) × (space.fetched_at ≡ now)
unfolding fetch_api_space
fetch_api_space-head H schedule region endpoint hosts prev_etag now space h = ground arith

-- The check of the store of credentials accepts exactly the URLs that the schema's check accepts
-- and that carry no user information.
pub validate_host-iff_assert_host_allowed :
    (parse_url : String → Result Url) (u : String) (hosts : List String)
    → (validate_host parse_url u hosts ≡ ok tt) ↔ (
        (assert_host_allowed parse_url u hosts ≡ ok tt)
        × ((parsed : Url) → parse_url u ≡ ok parsed → parsed.user ≡ none))
unfolding validate_host assert_host_allowed
validate_host-iff_assert_host_allowed parse_url u hosts =
    (λ h. (ground arith, λ parsed e. ground arith), λ h. checked (parse_url u) refl h.0 h.1)
  where
    checked :
        (r : Result Url)
        → parse_url u ≡ r
        → assert_host_allowed parse_url u hosts ≡ ok tt
        → ((parsed : Url) → parse_url u ≡ ok parsed → parsed.user ≡ none)
        → validate_host parse_url u hosts ≡ ok tt
    checked (ok parsed) e h k = ground (arith, k parsed)
    checked (err x) e h k = ground arith
    checked (panic m) e h k = ground arith
