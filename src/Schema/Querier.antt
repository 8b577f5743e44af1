-- ===== src/Schema/Querier.antt =====
-- internal/schema/querier_impl.go: queries over a cached description. A map's entries stand in the
-- order in which a loop meets them.
pub mod Laws
use Prim.Native.Nat.{min}
use ovh_cli.Prelude.{ℕ, String, Bool, true, false, Option, none, some, List, [], ◌∷◌, ◌++◌, ◌==◌}
use ovh_cli.Prelude.{◌||◌, ◌-◌, ◌*◌, ltb, if◌then◌else◌, has_prefix}
use ovh_cli.Prelude.Sort.{sort}
use ovh_cli.Prelude.Dict.{Dict, lookup}
use ovh_cli.Auth.Credentials.{Time}
use ovh_cli.Schema.Types.{PathSpec, MethodSpec, Service, Meta}
use ovh_cli.Schema.Interface.{Querier}

-- 24 hours in nanoseconds.
abbrev pub default_cache_ttl : ℕ
default_cache_ttl = 24 * 3600 * 1000000000

-- The largest `time.Duration`, 2 ^ 63 - 1 nanoseconds.
abbrev pub max_duration : ℕ
max_duration = 9223372036854775807

pub record CachedQuerier : Type 0 where
  pub meta : Meta
  pub services : Dict Service
  pub now : Time

-- `t.Sub(u)` holds at the largest duration; where `u` is later the result is not positive, and 0
-- stands for it here.
unfoldable pub stale : CachedQuerier → Bool
stale q = ltb default_cache_ttl (min max_duration (q.now - q.meta.fetched_at))

-- `lookupPath`. The services stand in the order in which this call's loop meets them, which is
-- another one for each call.
unfoldable pub lookup_path : String → Dict Service → Option PathSpec
lookup_path path [] = none
lookup_path path ((_, svc) ∷ rest) =
    let later = lookup_path path rest in
    elim (lookup path svc.paths) [ some ps ↦ some ps | none ↦ later ]

unfoldable pub describe : CachedQuerier → String → Option PathSpec
describe q path = lookup_path path q.services

pub has_method : Option PathSpec → String → Bool
has_method none method = false
has_method (some spec) method = elim (lookup method spec) [ some m ↦ true | none ↦ false ]

-- `HasPath`, over `strings.ToUpper`, with the services in the order in which its own loop meets
-- them.
unfoldable pub has_path :
    (String → String) → (Dict Service → Dict Service) → CachedQuerier → String → String → Bool
unfolding has_method
has_path to_upper met q method path =
    has_method (lookup_path path (met q.services)) (to_upper method)

-- The inner loop of `collectPaths`.
unfoldable pub matching_paths : String → Dict PathSpec → List String
matching_paths prefix [] = []
matching_paths prefix ((p, _) ∷ rest) =
    let more = matching_paths prefix rest in
    if prefix == "" || has_prefix p prefix then p ∷ more else more

-- The outer loop.
unfoldable pub gather_paths : String → Dict Service → List String
gather_paths prefix [] = []
gather_paths prefix ((_, svc) ∷ rest) = matching_paths prefix svc.paths ++ gather_paths prefix rest

unfoldable pub collect_paths : CachedQuerier → String → List String
collect_paths q prefix = sort (gather_paths prefix q.services)

unfoldable pub paths : CachedQuerier → List String
paths q = collect_paths q ""

unfoldable pub search : CachedQuerier → String → List String
search q prefix = collect_paths q prefix

unfoldable pub region : CachedQuerier → String
region q = q.meta.region

unfoldable pub fetched_at : CachedQuerier → Time
fetched_at q = q.meta.fetched_at

-- The cached querier as the interface. A call of `HasPath` has an order of its own.
unfoldable pub querier :
    (String → String) → (String → String → Dict Service → Dict Service) → CachedQuerier → Querier
querier to_upper met q = record {
  has_path = λ method path. has_path to_upper (met method path) q method path;
  describe = describe q;
  search = search q;
  paths = paths q;
  region = region q;
  fetched_at = fetched_at q;
  stale = stale q;
}
