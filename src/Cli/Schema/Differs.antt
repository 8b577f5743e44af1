-- ===== src/Cli/Schema/Differs.antt =====
-- What `ovh schema diff` prints.
use ovh_cli.Prelude.{String, Bool, not, List, [], ◌∷◌, ◌++◌, ◌≡◌, ◌&&◌, map, arith}
use ovh_cli.Prelude.Sort.{contains, IsSorted}
use ovh_cli.Prelude.Sort.Distinct.{IsDistinct}
use ovh_cli.Errors.{ok, bind_inversion, wrap_err, wrap_err-eq-ok}
use ovh_cli.Auth.Credentials.{Time}
use ovh_cli.Schema.World.{SchemaServices}
use ovh_cli.Schema.Interface.{is_found}
use ovh_cli.Schema.Querier.{CachedQuerier, describe, querier}
use ovh_cli.Schema.Querier.Laws.{contains-paths}
use ovh_cli.Schema.Diff.{compare}
use ovh_cli.Schema.Diff.Laws.{compare_lem}
use ovh_cli.Schema.Diff.Sets.{compare-IsDistinct}
use ovh_cli.Cli.Schema.{Print, printf, text, number, count, indented, open_cache, diff_command}
use ovh_cli.Paths.{Xdg}

-- An ascending list without repetition of the texts that pass a test.
abbrev pub Lists : List String → (String → Bool) → Type 0
Lists l test = IsSorted l × IsDistinct l × ((p : String) → contains l p ≡ test p)

-- The lines for three lists of paths.
abbrev pub diff_lines : String → String → List String → List String → List String → List Print
diff_lines first second x y z =
    printf "Only in %s (%d):\n" (text first ∷ number (count x) ∷ [])
    ∷ (map indented x
        ++ printf "Only in %s (%d):\n" (text second ∷ number (count y) ∷ [])
          ∷ (map indented y ++ printf "Common: %d paths\n" (number (count z) ∷ []) ∷ []))

module _ (S : SchemaServices) (X : Xdg) where
  abbrev known : CachedQuerier → String → Bool
  known q p = is_found (describe q p)

  compare-Lists :
      (a b : CachedQuerier)
      → let d = compare (querier S.to_upper S.met a) (querier S.to_upper S.met b) in
        Lists d.only_in_a (λ p. known a p && not (known b p))
        × Lists d.only_in_b (λ p. known b p && not (known a p))
        × Lists d.common (λ p. known a p && known b p)
  unfolding querier
  compare-Lists a b =
      let (s, t, u, x, y, z) =
        compare_lem (querier S.to_upper S.met a) (querier S.to_upper S.met b) in
      let (d, e, f) =
        compare-IsDistinct (querier S.to_upper S.met a) (querier S.to_upper S.met b) in
      (
        (s, d, λ p. ground (arith, x p, contains-paths a p, contains-paths b p)),
        (t, e, λ p. ground (arith, y p, contains-paths a p, contains-paths b p)),
        (u, f, λ p. ground (arith, z p, contains-paths a p, contains-paths b p)),
      )

  -- `schema diff` succeeds only if both caches open, and then prints the paths that the first alone
  -- describes, those that the second alone describes, and the number that both describe, each path
  -- once, in ascending order, under the number of them.
  pub diff_command-Lists :
      (s : S.disk.State) (first second : String) (now : Time) (lines : List Print)
      → diff_command S X s first second now ≡ ok lines
      → (a : CachedQuerier) × (b : CachedQuerier) × (open_cache S X s first now ≡ ok a)
        × (open_cache S X s second now ≡ ok b)
        × ((x : List String) × (y : List String) × (z : List String) × (lines
              ≡ diff_lines first second x y z)
            × Lists x (λ p. known a p && not (known b p))
            × Lists y (λ p. known b p && not (known a p))
            × Lists z (λ p. known a p && known b p))
  unfolding diff_command
  diff_command-Lists s first second now lines h =
      let (a, e, r) = bind_inversion (wrap_err _ _ (open_cache S X s first now)) _ h in
      let (b, f, q) = bind_inversion (wrap_err _ _ (open_cache S X s second now)) _ r in
      let (l, m, n) = compare-Lists a b in
      (
        a,
        b,
        wrap_err-eq-ok _ _ _ a e,
        wrap_err-eq-ok _ _ _ b f,
        (_, _, _, ground (arith, q), l, m, n),
      )
