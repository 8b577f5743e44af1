-- ===== src/Schema.antt =====
-- internal/schema: the cached description of the API, its queries, and how it is refreshed.
pub mod Types
pub mod Interface
pub mod Querier
pub mod Raw
pub mod Diff
pub mod World
pub mod Cache
pub mod Fetch
pub mod Refresh
