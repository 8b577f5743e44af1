-- ===== src/Tests/Queries.antt =====
-- The queries, the comparison and the host checks, run and by the theorems.
use mathlib.Core.Quot
use ovh_cli.Prelude.{String, none, List, [], ◌∷◌, ◌==◌, ◌≡◌, refl}
use ovh_cli.Prelude.{true, false, arith, ◌↔◌, ◌&&◌, ◌||◌, has_prefix}
use ovh_cli.Prelude.Sort.{sort, contains, IsSorted, leq}
use ovh_cli.Prelude.Dict.{Dict, lookup}
use ovh_cli.Errors.{Result, ok}
use ovh_cli.Auth.Regions.{Url, validate_host}
use ovh_cli.Schema.Types.{Meta, MethodSpec, Service}
use ovh_cli.Schema.Querier.{
  CachedQuerier, describe, querier, has_path, lookup_path, search, collect_paths, gather_paths,
  matching_paths,
}
use ovh_cli.Schema.Querier.Laws.{search_lem}
use ovh_cli.Schema.Interface.{Querier, is_found}
use ovh_cli.Schema.Diff.{compare}
use ovh_cli.Schema.Diff.Sets.{path_set, swap, compare-path_set}
use ovh_cli.Schema.Fetch.{assert_host_allowed}
use ovh_cli.Schema.Fetch.Laws.{validate_host-iff_assert_host_allowed}

abbrev no_models : Service
no_models = record { description = "account"; paths = []; error = ""; models = "{}" }

abbrev pub get_method : MethodSpec
get_method = record { description = "read"; auth = []; params = ""; response = "" }

abbrev pub me : Service
me = record no_models {
  paths = ("/me/bill", ("GET", get_method) ∷ []) ∷ ("/me", ("GET", get_method) ∷ []) ∷ [];
}

abbrev pub ip : Service
ip = record no_models { paths = ("/ip", ("POST", get_method) ∷ []) ∷ [] }

abbrev pub head : Meta
head = record { version = 1; region = "ovh-eu"; fetched_at = 5; etag = "e1"; schema_hash = "h" }

abbrev me_ip : CachedQuerier
me_ip = record { meta = head; services = ("/me", me) ∷ ("/ip", ip) ∷ []; now = 6 }

abbrev ip_me : CachedQuerier
ip_me = record { meta = head; services = ("/ip", ip) ∷ ("/me", me) ∷ []; now = 6 }

found_in_order : search me_ip "/me" ≡ "/me" ∷ "/me/bill" ∷ []
unfolding search collect_paths gather_paths matching_paths sort leq has_prefix
found_in_order = refl

search_lem_example :
    IsSorted (search me_ip "/me")
    × ((p : String)
        → contains (search me_ip "/me") p
          ≡ (is_found (describe me_ip p) && ("/me" == "" || has_prefix p "/me")))
search_lem_example = search_lem me_ip "/me"

abbrev same_text : String → String
same_text s = s

-- Two services that declare different methods of one path: what `HasPath` says depends on which of
-- them a loop meets first.
abbrev post_me : Service
post_me = record no_models { paths = ("/me", ("POST", get_method) ∷ []) ∷ [] }

abbrev get_first : CachedQuerier
get_first = record me_ip { services = ("/a", me) ∷ ("/b", post_me) ∷ [] }

abbrev turned : Dict Service → Dict Service
turned services = ("/b", post_me) ∷ ("/a", me) ∷ []

missed :
    (has_path same_text (λ services. services) get_first "POST" "/me" ≡ false)
    × (has_path same_text turned get_first "POST" "/me" ≡ true)
unfolding has_path lookup_path lookup
missed = (refl, refl)

abbrev asked : Querier
asked = querier same_text (λ method path services. services) me_ip

-- A querier that lists the paths.
abbrev listing : List String → Querier
listing l = record asked { paths = l }

abbrev two : Querier
two = listing ("/me" ∷ "/ip" ∷ [])

abbrev one : Querier
one = listing ("/ip" ∷ "/sms" ∷ [])

-- The paths of `two` in another order, and one of them twice.
abbrev shuffled : Querier
shuffled = listing ("/ip" ∷ "/me" ∷ "/ip" ∷ [])

same_two : path_set two ≡ path_set shuffled
unfolding path_set contains
same_two = Quot.sound λ p. ground arith

compare-path_set_example :
    (compare two one ≡ compare shuffled one) × (compare one two ≡ swap (compare shuffled one))
compare-path_set_example = compare-path_set two shuffled one one same_two refl

abbrev pub parse_url : String → Result Url
parse_url u = ok (record { scheme = "https"; host = "eu.api.ovh.com"; user = none })

validate_host-iff_assert_host_allowed_example :
    (validate_host parse_url "https://eu.api.ovh.com" ("eu.api.ovh.com" ∷ []) ≡ ok tt) ↔ (
      (assert_host_allowed parse_url "https://eu.api.ovh.com" ("eu.api.ovh.com" ∷ []) ≡ ok tt)
      × ((parsed : Url) → parse_url "https://eu.api.ovh.com" ≡ ok parsed → parsed.user ≡ none))
validate_host-iff_assert_host_allowed_example =
    validate_host-iff_assert_host_allowed parse_url "https://eu.api.ovh.com" ("eu.api.ovh.com" ∷ [])
