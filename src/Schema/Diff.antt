-- ===== src/Schema/Diff.antt =====
-- internal/schema/diff.go: the paths that two descriptions share and that each has alone.
pub mod Laws
pub mod Sets
use ovh_cli.Prelude.{
  String, Bool, true, false, not, Option, none, some, List, [], ◌∷◌, if◌then◌else◌,
}
use ovh_cli.Prelude.Sort.{sort}
use ovh_cli.Prelude.Dict.{Dict, lookup, insert}
use ovh_cli.Schema.Interface.{Querier}

pub record Diff : Type 0 where
  pub only_in_a : List String
  pub only_in_b : List String
  pub common : List String

unfoldable pub set_of : List String → Dict (Unit {0})
set_of [] = []
set_of (v ∷ rest) = insert v tt (set_of rest)

abbrev pub is_key : Option (Unit {0}) → Bool
is_key none = false
is_key (some _) = true

-- The keys of a map, in the order of a loop, that pass a test.
unfoldable pub keys_where : (String → Bool) → Dict (Unit {0}) → List String
keys_where keep [] = []
keys_where keep ((p, _) ∷ rest) =
    let more = keys_where keep rest in if keep p then p ∷ more else more

-- `Compare`
unfoldable pub compare : Querier → Querier → Diff
compare a b =
    let pa = set_of a.paths in
    let pb = set_of b.paths in
    record {
      only_in_a = sort (keys_where (λ p. not (is_key (lookup p pb))) pa);
      only_in_b = sort (keys_where (λ p. not (is_key (lookup p pa))) pb);
      common = sort (keys_where (λ p. is_key (lookup p pb)) pa);
    }
