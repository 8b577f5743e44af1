-- ===== src/Auth/Store/Names.antt =====
-- The names of regions, which have no colon, and the users of the keyring of different regions.
use Prim.Native.Char.{code}
use ovh_cli.Prelude.{
  String, ◌<>◌, Bool, true, false, Option, none, some, ◌≡◌, ◌≢◌, refl, ◌∙◌, sym, ap, subst, eqb,
  ◌==◌,
}
use ovh_cli.Prelude.{arith, if◌then◌else◌, ◌||◌, ne-test}
use text.Mathlib.TextLemmas.{nil-append, cons-append}
use ovh_cli.Auth.Keyring.{keyring_user}
use ovh_cli.Auth.Regions.{Region, region_by_id}
use ovh_cli.Auth.Regions.Registry.{region_by_id-All}
use ovh_cli.Auth.Store.{is_known}

has_colon : String → Bool
has_colon String.[] = false
has_colon (String.◌∷◌ c s) = eqb (code c) b':' || has_colon s

before_colon : String → String
before_colon String.[] = String.[]
before_colon (String.◌∷◌ c s) =
    let rest = before_colon s in if eqb (code c) b':' then String.[] else String.◌∷◌ c rest

before_colon-append : (s t : String) → has_colon s ≡ false → before_colon (s <> (":" <> t)) ≡ s
unfolding has_colon before_colon
before_colon-append String.[] t h = rw nil-append (rw cons-append refl)
before_colon-append (String.◌∷◌ c s) t h = rw cons-append (ground (arith, before_colon-append s t))

known-has_colon : (region : String) → is_known region ≡ true → has_colon region ≡ false
unfolding is_known has_colon
known-has_colon region h = by_search (region_by_id region) refl
  where
    by_search : (o : Option Region) → region_by_id region ≡ o → has_colon region ≡ false
    by_search none e = ground arith
    by_search (some r) e =
        let (plain, same) =
          region_by_id-All (λ r. has_colon r.id ≡ false) region r
            (refl, (refl, (refl, (refl, (refl, (refl, (refl, tt))))))) e in
        subst (λ s. has_colon s ≡ false) same plain

-- What stands before the first colon of a known region's text is the region.
pub known_inj :
    (region other s t : String)
    → is_known region ≡ true
    → is_known other ≡ true
    → region <> (":" <> s) ≡ other <> (":" <> t)
    → region ≡ other
known_inj region other s t h k e =
    sym (before_colon-append region s (known-has_colon region h))
    ∙ ap before_colon e
    ∙ before_colon-append other t (known-has_colon other k)

-- No section of a region is the default one.
pub known-ne-default : (region : String) → is_known region ≡ true → ("default" == region) ≡ false
unfolding is_known region_by_id
known-ne-default region h =
    ne-test "default" region λ e. cc (subst (λ r. is_known r ≡ true) (sym e) h)

pub regions_apart :
    (region other profile other_profile key other_key : String)
    → is_known region ≡ true
    → is_known other ≡ true
    → region ≢ other
    → (keyring_user region profile key == keyring_user other other_profile other_key) ≡ false
unfolding keyring_user
regions_apart region other profile other_profile key other_key h k ne =
    ne-test _ _ λ e. ne (known_inj region other _ _ h k e)
