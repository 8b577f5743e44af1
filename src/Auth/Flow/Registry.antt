-- ===== src/Auth/Flow/Registry.antt =====
-- The URLs in the registry pass the checks that the program makes of them.
use Prim.Native.Char.{code}
use ovh_cli.Prelude.{
  String, ◌<>◌, Bool, true, false, none, some, List, ◌&&◌, ◌||◌, leb, eqb, ◌≡◌, refl,
}
use ovh_cli.Prelude.Sort.{contains}
use ovh_cli.Errors.{Result, ok}
use ovh_cli.Auth.Regions.{
  Region, Url, regions, region_by_id, validate_host, ovh_eu, ovh_us, ovh_ca, kimsufi_eu, kimsufi_ca,
  soyoustart_eu, soyoustart_ca,
}
use ovh_cli.Auth.Regions.Registry.{All, region_by_id-All}
use ovh_cli.Auth.Flow.{credential_url, trim_slashes}
use ovh_cli.Schema.Fetch.{assert_host_allowed}

-- A text of letters, digits, dots and dashes, and slashes where they are allowed.
unfoldable pub is_plain : Bool → String → Bool
is_plain slashes String.[] = true
is_plain slashes (String.◌∷◌ c s) =
    let rest = is_plain slashes s in
    ((leb b'a' (code c) && leb (code c) b'z')
      || (leb b'A' (code c) && leb (code c) b'Z')
      || (leb b'0' (code c) && leb (code c) b'9')
      || eqb (code c) b'.'
      || eqb (code c) b'-'
      || (slashes && eqb (code c) b'/'))
    && rest

-- `url.Parse` of an https URL with a plain host and a plain path.
pub record ParsesPlain (parse_url : String → Result Url) : Type 0 where
  pub parses :
      (host path : String)
      → is_plain false host ≡ true
      → is_plain true path ≡ true
      → parse_url ("https://" <> (host <> ("/" <> path)))
        ≡ ok (record { scheme = "https"; user = none; host = host })

module _ (parse_url : String → Result Url) (P : ParsesPlain parse_url) where
  passes :
      (host path : String) (hosts : List String)
      → is_plain false host ≡ true
      → is_plain true path ≡ true
      → contains hosts host ≡ true
      → (validate_host parse_url ("https://" <> (host <> ("/" <> path))) hosts ≡ ok tt)
        × (assert_host_allowed parse_url ("https://" <> (host <> ("/" <> path))) hosts ≡ ok tt)
  unfolding validate_host assert_host_allowed
  passes host path hosts h k c = (rw (P.parses host path h k, c), rw (P.parses host path h k, c))

  -- The region's endpoint, the URL for new consumer keys and the page for new applications are on
  -- the region's hosts.
  abbrev pub IsConsistent : Region → Type 0
  IsConsistent r =
      (validate_host parse_url r.endpoint_url r.validation_host_pattern ≡ ok tt)
      × (assert_host_allowed parse_url r.endpoint_url r.validation_host_pattern ≡ ok tt)
      × (validate_host parse_url (credential_url r) r.validation_host_pattern ≡ ok tt)
      × (validate_host parse_url r.portal_create_app_url r.validation_host_pattern ≡ ok tt)

  consistent :
      (r : Region) (host : String)
      → r.endpoint_url ≡ "https://" <> (host <> ("/" <> "1.0"))
      → credential_url r ≡ "https://" <> (host <> ("/" <> "1.0/auth/credential"))
      → r.portal_create_app_url ≡ "https://" <> (host <> ("/" <> "createApp/"))
      → is_plain false host ≡ true
      → contains r.validation_host_pattern host ≡ true
      → IsConsistent r
  unfolding is_plain
  consistent r host e₁ e₂ e₃ h c =
      let (a, b) = passes host "1.0" r.validation_host_pattern h refl c in
      (
        rw e₁ a,
        rw e₁ b,
        rw e₂ (passes host "1.0/auth/credential" r.validation_host_pattern h refl c).0,
        rw e₃ (passes host "createApp/" r.validation_host_pattern h refl c).0,
      )

  -- For every region of the registry, the check of the schema's endpoint and the check before
  -- /auth/credential succeed, and the page for new applications passes the check of its host, if
  -- `url.Parse` reads an https URL with a plain host and path as it is written.
  pub region_by_id-IsConsistent :
      (id : String) (r : Region) → region_by_id id ≡ some r → IsConsistent r
  unfolding trim_slashes contains is_plain
  region_by_id-IsConsistent id r found = (region_by_id-All IsConsistent id r all found).0
    where
      all : All IsConsistent regions
      all = (
        consistent ovh_eu "eu.api.ovh.com" refl refl refl refl refl,
        (
          consistent ovh_us "api.us.ovhcloud.com" refl refl refl refl refl,
          (
            consistent ovh_ca "ca.api.ovh.com" refl refl refl refl refl,
            (
              consistent kimsufi_eu "eu.api.kimsufi.com" refl refl refl refl refl,
              (
                consistent kimsufi_ca "ca.api.kimsufi.com" refl refl refl refl refl,
                (
                  consistent soyoustart_eu "eu.api.soyoustart.com" refl refl refl refl refl,
                  (consistent soyoustart_ca "ca.api.soyoustart.com" refl refl refl refl refl, tt),
                ),
              ),
            ),
          ),
        ),
      )
