-- ===== src/Schema/Diff/Laws.antt =====
-- `Compare` splits the paths of two descriptions.
use ovh_cli.Prelude.{String, Bool, not, List, [], ◌∷◌, ◌≡◌}
use ovh_cli.Prelude.{◌&&◌, ◌∙◌, refl, ap, arith, eq_iff}
use ovh_cli.Prelude.Sort.{sort, contains, contains-sort, IsSorted, sort-IsSorted}
use ovh_cli.Prelude.Dict.{Dict, lookup, lookup-insert}
use ovh_cli.Schema.Interface.{Querier}
use ovh_cli.Schema.Diff.{set_of, is_key, keys_where, compare}

lookup-set_of : (l : List String) (p : String) → is_key (lookup p (set_of l)) ≡ contains l p
unfolding set_of contains lookup
lookup-set_of [] p = refl
lookup-set_of (v ∷ l) p = ground (arith, lookup-insert v p tt (set_of l), lookup-set_of l p)

pub contains-keys_where :
    (keep : String → Bool) (d : Dict (Unit {0})) (p : String)
    → contains (keys_where keep d) p ≡ (is_key (lookup p d) && keep p)
unfolding keys_where contains lookup
contains-keys_where keep [] p = refl
contains-keys_where keep ((q, u) ∷ d) p =
    ground (arith, contains-keys_where keep d p, eq_iff q p, λ (e : q ≡ p). ap keep e)

contains-split :
    (keep : String → Bool) (l : List String) (p : String)
    → contains (sort (keys_where keep (set_of l))) p ≡ (contains l p && keep p)
contains-split keep l p =
    contains-sort (keys_where keep (set_of l)) p
    ∙ contains-keys_where keep (set_of l) p
    ∙ ap (λ b. b && keep p) (lookup-set_of l p)

-- Each list of the diff is ascending, and a path is in it exactly if it is in the one description
-- and not the other, or in both.
pub compare_lem :
    (a b : Querier)
    → let d = compare a b in
      IsSorted d.only_in_a
      × IsSorted d.only_in_b
      × IsSorted d.common
      × ((p : String) → contains d.only_in_a p ≡ (contains a.paths p && not (contains b.paths p)))
      × ((p : String) → contains d.only_in_b p ≡ (contains b.paths p && not (contains a.paths p)))
      × ((p : String) → contains d.common p ≡ (contains a.paths p && contains b.paths p))
unfolding compare
compare_lem a b = (
  sort-IsSorted _,
  sort-IsSorted _,
  sort-IsSorted _,
  λ p. contains-split _ a.paths p ∙ rw lookup-set_of refl,
  λ p. contains-split _ b.paths p ∙ rw lookup-set_of refl,
  λ p. contains-split _ a.paths p ∙ rw lookup-set_of refl,
)
