-- ===== src/Cli/Schema.antt =====
-- internal/cli/schema: the commands `ovh schema refresh`, `show`, `path` and `diff`. What a command
-- prints is the list of its calls of fmt.
pub mod Prints
pub mod Methods
pub mod Differs
use ovh_cli.Prelude.{
  ℕ, zero, suc, String, ◌<>◌, Bool, true, false, not, Option, none, some, List, [], ◌∷◌, ◌++◌, ◌==◌,
  ◌&&◌, map,
}
use ovh_cli.Prelude.{if◌then◌else◌}
use ovh_cli.Prelude.Sort.{sort}
use ovh_cli.Prelude.Dict.{Dict, lookup}
use ovh_cli.Errors.{Error, Result, ok, err, panic, ◌>>=◌, wrap_err, errorf}
use ovh_cli.Effect.{Effect, chain}
use ovh_cli.Auth.Credentials.{Time}
use ovh_cli.Schema.Types.{MethodSpec, PathSpec}
use ovh_cli.Schema.Querier.{CachedQuerier, search, describe, querier}
use ovh_cli.Schema.Diff.{compare}
use ovh_cli.Schema.Cache.{open_cache_at}
use ovh_cli.Schema.Fetch.{Http}
use ovh_cli.Schema.Refresh.{refresh_from}
use ovh_cli.Schema.World.{SchemaServices}
use ovh_cli.Cli.Regions.{RegionConfig, resolve_region, join_with}
use ovh_cli.Paths.{Xdg, schema_dir}

-- An operand of a format.
pub data Operand : Type 0 where
  text : String → Operand
  number : ℕ → Operand

-- A call of `Fprintf` or `Fprintln`.
pub data Print : Type 0 where
  printf : String → List Operand → Print
  println : String → Print

-- `resolveRegionFlag`; a flag that was not given reads as "".
unfoldable pub resolve_region_flag : String → String
resolve_region_flag flag = if flag == "" then "ovh-eu" else flag

abbrev pub count : List String → ℕ
count [] = zero
count (_ ∷ l) = suc (count l)

unfoldable pub method_names : PathSpec → List String
method_names [] = []
method_names ((m, _) ∷ rest) = m ∷ method_names rest

unfoldable pub sorted_methods : PathSpec → List String
unfolding method_names
sorted_methods ps = sort (method_names ps)

-- `ps[m]`, with the zero value for a key that is not there.
abbrev pub spec_or_zero : Option MethodSpec → MethodSpec
spec_or_zero none = record { description = ""; auth = []; params = ""; response = "" }
spec_or_zero (some spec) = spec

abbrev pub auth_line : List String → List Print
auth_line [] = []
auth_line (a ∷ rest) = printf "  auth: %s\n" (text (join_with ", " (a ∷ rest)) ∷ []) ∷ []

unfoldable pub show_method : PathSpec → String → String → List Print
show_method ps path m =
    let spec = spec_or_zero (lookup m ps) in
    printf "%s %s\n  %s\n" (text m ∷ text path ∷ text spec.description ∷ []) ∷ auth_line spec.auth

-- The loop of `show`, over `strings.EqualFold`.
unfoldable pub show_methods :
    (String → String → Bool) → PathSpec → String → String → List String → List Print
show_methods equal_fold ps path method [] = []
show_methods equal_fold ps path method (m ∷ rest) =
    let later = show_methods equal_fold ps path method rest in
    if not (method == "") && not (equal_fold m method)
    then later
    else show_method ps path m ++ later

abbrev pub indented : String → Print
indented p = println ("  " <> p)

module _ (S : SchemaServices) (X : Xdg) where
  -- `OpenCache`
  unfoldable pub open_cache : S.disk.State → String → Time → Result CachedQuerier
  open_cache s region now = open_cache_at S s (schema_dir X region) region now

  -- `Refresh`
  abbrev pub refresh :
      Http
      → (List String → List String)
      → String
      → String
      → List String
      → Time
      → Effect S.disk.State (Unit {0})
  refresh H schedule region endpoint allowed_hosts now =
      refresh_from S H schedule region endpoint allowed_hosts (schema_dir X region) now

  unfoldable pub refresh_command :
      Http → (List String → List String) → String → Time → Effect S.disk.State (Unit {0})
  refresh_command H schedule flag now s =
      let region = resolve_region_flag flag in
      chain (resolve_region region, s)
        λ rc. refresh H schedule region rc.endpoint rc.allowed_hosts now

  unfoldable pub shown :
      (String → String → Bool) → String → String → String → Option PathSpec → Result (List Print)
  shown equal_fold region method path none = err (
      errorf "path %q not found in region %s (try `ovh schema path` to search)"
        (path ∷ region ∷ []))
  shown equal_fold region method path (some ps) =
      ok (show_methods equal_fold ps path method (sorted_methods ps))

  unfoldable pub show_command :
      (String → String → Bool)
      → S.disk.State
      → String
      → String
      → String
      → Time
      → Result (List Print)
  unfolding shown
  show_command equal_fold s flag method path now =
      let region = resolve_region_flag flag in
      wrap_err "open cache for %s: %w" (region ∷ []) (open_cache s region now) >>= λ q.
      shown equal_fold region method path (describe q path)

  unfoldable pub path_command : S.disk.State → String → String → Time → Result (List Print)
  path_command s flag prefix now =
      let region = resolve_region_flag flag in
      wrap_err "open cache for %s: %w" (region ∷ []) (open_cache s region now) >>= λ q.
      ok (map println (search q prefix))

  unfoldable pub diff_command : S.disk.State → String → String → Time → Result (List Print)
  diff_command s first second now = do
    a ← wrap_err "open %s: %w" (first ∷ []) (open_cache s first now)
    b ← wrap_err "open %s: %w" (second ∷ []) (open_cache s second now)
    let d = compare (querier S.to_upper S.met a) (querier S.to_upper S.met b)
    ok (
        printf "Only in %s (%d):\n" (text first ∷ number (count d.only_in_a) ∷ [])
        ∷ (map indented d.only_in_a
            ++ printf "Only in %s (%d):\n" (text second ∷ number (count d.only_in_b) ∷ [])
              ∷ (map indented d.only_in_b
                  ++ printf "Common: %d paths\n" (number (count d.common) ∷ []) ∷ [])))
