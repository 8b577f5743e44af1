-- ===== src/Tests/Refreshes.antt =====
-- Refreshes at the same time, one of which fails between its two writes.
use mathlib.Core.List.{Memᴰ}
use ovh_cli.Prelude.{ℕ, false, List, [], ◌∷◌, ◌≡◌, ◌⊎◌, refl}
use ovh_cli.Errors.{answered, ok}
use ovh_cli.Schema.Querier.{CachedQuerier}
use ovh_cli.Schema.Cache.{open_cache_at}
use ovh_cli.Schema.Fetch.{Http}
use ovh_cli.Schema.Refresh.Attempts.{Attempt, HasFetched}
use ovh_cli.Schema.Refresh.Steps.Interleaved.{started, interleave, interleave-opens}
use ovh_cli.Tests.Memory.{MemoryFiles, memory_disk-IsAtomic}
use ovh_cli.Tests.Memory.Blob.{meta_codec-IsFaithful, space_codec-IsReindenting}
use ovh_cli.Tests.Queries.{head}
use ovh_cli.Tests.Schema.{
  reply, server, as_listed, cache_services, laid_out, hosts, endpoint, cached, opened,
  opened_querier,
}

-- The server that always answers with the description.
abbrev fresh_server : Http
unfolding reply
fresh_server = record server { get = λ target etag. answered (reply false) }

abbrev attempts : List Attempt
attempts =
    record {
      http = fresh_server;
      schedule = as_listed;
      endpoint = endpoint;
      hosts = hosts;
      now = 9;
    }
    ∷ record { http = server; schedule = as_listed; endpoint = endpoint; hosts = hosts; now = 10 }
    ∷ []

-- The head cannot be written.
abbrev locked_cache : MemoryFiles
locked_cache = record (cached head) { locked = "/cache/apispace.meta.json" }

-- The two processes take turns, and the first writes its description before the second reads.
abbrev order : List ℕ
order = 0 ∷ 1 ∷ 0 ∷ 0 ∷ 0 ∷ 1 ∷ 1 ∷ 0 ∷ 1 ∷ 1 ∷ []

interleave-opens_example :
    (q' : CachedQuerier) × (open_cache_at cache_services
        (interleave cache_services "/cache" "ovh-eu" order (started attempts) locked_cache).1
        "/cache"
        "ovh-eu"
        11
      ≡ ok q')
    × ((q'.services ≡ opened_querier.services)
        ⊎ ((a : Attempt) × Memᴰ a attempts
            × HasFetched cache_services "/cache" "ovh-eu" a q'.services))
unfolding opened
interleave-opens_example =
    interleave-opens cache_services "/cache" "ovh-eu" memory_disk-IsAtomic meta_codec-IsFaithful
      space_codec-IsReindenting laid_out attempts order locked_cache 10 11 opened_querier refl
