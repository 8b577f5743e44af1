-- ===== src/Cli/Regions/Resolves.antt =====
-- What `resolveRegion` gives.
use ovh_cli.Prelude.{
  String, Bool, false, Option, none, some, [], ◌∷◌, ◌==◌, ◌≡◌, refl, sym, ◌∙◌, arith,
}
use ovh_cli.Errors.{Error, ok, err, errorf}
use ovh_cli.Effect.NoPanic.{NoPanic}
use ovh_cli.Auth.Regions.{Region, region_by_id}
use ovh_cli.Auth.Regions.Registry.{region_by_id-All}
use ovh_cli.Schema.Refresh.{is_nil}
use ovh_cli.Cli.Regions.{RegionConfig, resolve_region, region_ids, join_with}
use ovh_cli.Cli.Regions.Agreement.{regions-agree}

pub resolve_region-known :
    (id : String) (r : Region)
    → region_by_id id ≡ some r
    → resolve_region id
      ≡ ok (record { endpoint = r.endpoint_url; allowed_hosts = r.validation_host_pattern })
unfolding resolve_region
resolve_region-known id r h = rw (regions-agree id, h)

abbrev pub unknown_region : String → Error
unknown_region id = errorf "unknown region %q (one of: %s)" (id ∷ join_with ", " region_ids ∷ [])

pub resolve_region-unknown :
    (id : String) → region_by_id id ≡ none → resolve_region id ≡ err (unknown_region id)
unfolding resolve_region
resolve_region-unknown id h = rw (regions-agree id, h) refl

-- The region meets the preconditions of `refreshFrom`.
abbrev pub IsUsable : Region → Type 0
IsUsable r =
    ((r.id == "") ≡ false)
    × ((r.endpoint_url == "") ≡ false)
    × (is_nil r.validation_host_pattern ≡ false)

pub region_by_id-IsUsable :
    (id : String) (r : Region) → region_by_id id ≡ some r → IsUsable r × (r.id ≡ id)
region_by_id-IsUsable id r h =
    region_by_id-All IsUsable id r
      (usable, (usable, (usable, (usable, (usable, (usable, (usable, tt))))))) h
  where
    usable : ◌≡◌ {A = Bool} false false × ◌≡◌ {A = Bool} false false × ◌≡◌ {A = Bool} false false
    usable = (refl, refl, refl)

pub resolve_region-usable :
    (region : String) (rc : RegionConfig)
    → resolve_region region ≡ ok rc
    → ((rc.endpoint == "") ≡ false) × (is_nil rc.allowed_hosts ≡ false)
resolve_region-usable region rc h = by_region (region_by_id region) refl
  where
    by_region :
        (r : Option Region)
        → region_by_id region ≡ r
        → ((rc.endpoint == "") ≡ false) × (is_nil rc.allowed_hosts ≡ false)
    by_region none e = ground (arith, resolve_region-unknown region e)
    by_region (some r) e =
        let ((_, served, hosted), _) = region_by_id-IsUsable region r e in
        let same : ok
              (record { endpoint = r.endpoint_url; allowed_hosts = r.validation_host_pattern })
            ≡ ok rc =
          sym (resolve_region-known region r e) ∙ h in
        ground (arith, served, hosted, same)

pub resolve_region-NoPanic : (region : String) → NoPanic (resolve_region region)
resolve_region-NoPanic region message h = by_region (region_by_id region) refl
  where
    by_region : (r : Option Region) → region_by_id region ≡ r → ⊥
    by_region none e = ground (arith, resolve_region-unknown region e)
    by_region (some r) e = ground (arith, resolve_region-known region r e)
