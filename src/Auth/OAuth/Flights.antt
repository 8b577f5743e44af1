-- ===== src/Auth/OAuth/Flights.antt =====
-- The keys under which concurrent refreshes are shared.
use ovh_cli.Prelude.{String, ◌<>◌, true, ◌≡◌, ◌∙◌, sym, ap}
use text.Mathlib.TextLemmas.{append_cancel_left}
use ovh_cli.Auth.Store.{is_known}
use ovh_cli.Auth.Store.Names.{known_inj}
use ovh_cli.Auth.OAuth.{flight_key}

-- Refreshes share a flight only if they are for the same region and the same profile, if the regions
-- are known ones; the profiles are any texts.
pub flight_key_inj :
    (region profile other_region other_profile : String)
    → is_known region ≡ true
    → is_known other_region ≡ true
    → flight_key region profile ≡ flight_key other_region other_profile
    → (region ≡ other_region) × (profile ≡ other_profile)
flight_key_inj region profile other_region other_profile h k e =
    let same = known_inj region other_region profile other_profile h k e in
    let e' : region <> (":" <> profile) ≡ region <> (":" <> other_profile) =
      e ∙ ap (λ r. r <> (":" <> other_profile)) (sym same) in
    (same, append_cancel_left ":" _ _ (append_cancel_left region _ _ e'))
