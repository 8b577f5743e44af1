-- ===== src/Auth/Regions/Registry.antt =====
-- What holds of every region of the registry holds of a region that was looked up.
use ovh_cli.Prelude.{
  String, some, List, [], ◌∷◌, ◌==◌, ◌≡◌, arith, eq_of_test, Bool-cases, inl, inr, subst,
}
use ovh_cli.Auth.Regions.{Region, regions, find_region, region_by_id}

abbrev pub All : (Region → Type 0) → List Region → Type 0
All P [] = Unit
All P (r ∷ rest) = P r × All P rest

find_region-All :
    (P : Region → Type 0) (l : List Region) (id : String) (r : Region)
    → All P l
    → find_region id l ≡ some r
    → P r × (r.id ≡ id)
unfolding find_region
find_region-All P [] id r h k = cc
find_region-All P (q ∷ l) id r h k = elim (Bool-cases (q.id == id)) [
  | inl e ↦
      let same : q ≡ r = ground arith in
      subst (λ x. P x × (x.id ≡ id)) same (h.0, eq_of_test q.id id e)
  | inr e ↦ find_region-All P l id r h.1 (rw e at k)
]

pub region_by_id-All :
    (P : Region → Type 0) (id : String) (r : Region)
    → All P regions
    → region_by_id id ≡ some r
    → P r × (r.id ≡ id)
unfolding region_by_id
region_by_id-All P id r h k = find_region-All P regions id r h k
