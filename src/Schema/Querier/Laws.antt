-- ===== src/Schema/Querier/Laws.antt =====
-- What the queries say of one another, and that they do not depend on the order of a map.
use mathlib.Core.List.{Permᴰ, append_assoc}
use mathlib.Core.List.Permᴰ
use mathlib.Core.Path.{subst, subst₂}
use ovh_cli.Prelude.{String, Bool, List, [], ◌∷◌, ◌++◌, ◌==◌, ◌≡◌}
use ovh_cli.Prelude.{◌||◌, ◌&&◌, ◌∙◌, refl, arith, eq_iff, has_prefix}
use ovh_cli.Prelude.Sort.{
  contains, contains-sort, contains-append, IsSorted, sort-IsSorted, sort-perm,
}
use ovh_cli.Prelude.Dict.{Dict, lookup}
use ovh_cli.Schema.Types.{PathSpec, Service}
use ovh_cli.Schema.Interface.{is_found}
use ovh_cli.Schema.Querier.{
  CachedQuerier, lookup_path, describe, matching_paths, gather_paths, collect_paths, paths, search,
}

abbrev selected : String → String → Bool
selected prefix p = prefix == "" || has_prefix p prefix

contains-matching_paths :
    (prefix p : String) (d : Dict PathSpec)
    → contains (matching_paths prefix d) p ≡ (is_found (lookup p d) && selected prefix p)
unfolding contains matching_paths lookup
contains-matching_paths prefix p [] = refl
contains-matching_paths prefix p ((q, ps) ∷ d) =
    ground (arith, contains-matching_paths prefix p d, eq_iff q p)

contains-gather_paths :
    (prefix p : String) (s : Dict Service)
    → contains (gather_paths prefix s) p ≡ (is_found (lookup_path p s) && selected prefix p)
unfolding contains gather_paths lookup_path
contains-gather_paths prefix p [] = refl
contains-gather_paths prefix p ((n, svc) ∷ s) =
    contains-append (matching_paths prefix svc.paths) (gather_paths prefix s) p
    ∙ ground (arith, contains-matching_paths prefix p svc.paths, contains-gather_paths prefix p s)

-- `Search` returns, in ascending order, exactly the paths that `Describe` knows and that begin with
-- the prefix.
pub search_lem :
    (q : CachedQuerier) (prefix : String)
    → IsSorted (search q prefix)
      × ((p : String)
          → contains (search q prefix) p
            ≡ (is_found (describe q p) && (prefix == "" || has_prefix p prefix)))
unfolding search collect_paths describe
search_lem q prefix = (
  sort-IsSorted _,
  λ p. contains-sort (gather_paths prefix q.services) p ∙ contains-gather_paths prefix p q.services,
)

pub contains-paths :
    (q : CachedQuerier) (p : String) → contains (paths q) p ≡ is_found (describe q p)
unfolding paths collect_paths describe
contains-paths q p =
    contains-sort (gather_paths "" q.services) p
    ∙ contains-gather_paths "" p q.services
    ∙ ground arith

pub paths-IsSorted : (q : CachedQuerier) → IsSorted (paths q)
unfolding paths collect_paths
paths-IsSorted q = sort-IsSorted _

append_exchange : (l r t : List String) → Permᴰ (l ++ (r ++ t)) (r ++ (l ++ t))
append_exchange l r t =
    subst₂ Permᴰ (append_assoc l r t) (append_assoc r l t)
      (Permᴰ.append_right t (Permᴰ.append_comm l r))

gather_paths-perm :
    (prefix : String) {s t : Dict Service}
    → Permᴰ s t
    → Permᴰ (gather_paths prefix s) (gather_paths prefix t)
unfolding gather_paths
gather_paths-perm prefix Permᴰ.nil = Permᴰ.nil
gather_paths-perm prefix (Permᴰ.cons {a = a} {l₁ = l₁} {l₂ = l₂} e p) =
    subst
      (λ x.
        Permᴰ (matching_paths prefix a.1.paths ++ gather_paths prefix l₁)
          (matching_paths prefix x.1.paths ++ gather_paths prefix l₂))
      e (Permᴰ.append_left (matching_paths prefix a.1.paths) (gather_paths-perm prefix p))
gather_paths-perm prefix (Permᴰ.swap {a = a} {b = b} {l = l} e f) =
    subst₂
      (λ x y.
        Permᴰ
          (matching_paths prefix a.1.paths
            ++ (matching_paths prefix b.1.paths ++ gather_paths prefix l))
          (matching_paths prefix x.1.paths
            ++ (matching_paths prefix y.1.paths ++ gather_paths prefix l)))
      f e (append_exchange (matching_paths prefix a.1.paths) (matching_paths prefix b.1.paths) _)
gather_paths-perm prefix (Permᴰ.trans p q) =
    Permᴰ.trans (gather_paths-perm prefix p) (gather_paths-perm prefix q)

-- `Search` does not depend on the order in which the services are met.
pub search-perm :
    (q r : CachedQuerier) (prefix : String)
    → Permᴰ q.services r.services
    → search q prefix ≡ search r prefix
unfolding search collect_paths
search-perm q r prefix p = sort-perm (gather_paths-perm prefix p)
