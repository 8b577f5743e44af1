-- ===== src/Auth/HostsFile/Sessions/Entries.antt =====
-- The entries of hosts.yml after one of its documents was changed.
use ovh_cli.Prelude.{
  String, true, false, none, some, [], ◌∷◌, ◌==◌, ◌&&◌, ◌≡◌, refl, arith, eq_iff, Bool-cases, inl,
  inr, if◌then◌else◌,
}
use ovh_cli.Prelude.Dict.{Dict, lookup, insert, remove, is_empty, lookup-insert, lookup-remove}
use ovh_cli.Auth.Credentials.{Credentials}
use ovh_cli.Auth.Hosts.{HostProfile, HostRegion, HostsFile}
use ovh_cli.Auth.World.{Services}
use ovh_cli.Auth.HostsFile.{find_profile, with_profile, without_profile, profiles_of}

lookup-nil : (profile : String) → lookup {V = HostProfile} profile [] ≡ none
unfolding lookup
lookup-nil profile = refl

module _ (S : Services) (hf : HostsFile) where
  pub find_profile-with_profile_if :
      (c : Credentials) (p : HostProfile) (region profile : String)
      → find_profile (with_profile S hf c p) region profile ≡ (
          if c.region == region && c.profile == profile
          then some p
          else find_profile hf region profile)
  unfolding find_profile with_profile
  find_profile-with_profile_if c p region profile = ground (
    arith,
    lookup-insert c.region region
        (record { profiles = insert c.profile p (profiles_of (lookup c.region hf.hosts)) })
        hf.hosts,
    lookup-insert c.profile profile p (profiles_of (lookup c.region hf.hosts)),
    eq_iff c.region region,
  )

  empty-lookup :
      (gone profile : String) (d : Dict HostProfile)
      → is_empty (remove gone d) ≡ true
      → (gone == profile) ≡ false
      → lookup profile d ≡ none
  unfolding lookup
  empty-lookup gone profile d h ne = by_left (remove gone d) refl
    where
      by_left : (l : Dict HostProfile) → remove gone d ≡ l → lookup profile d ≡ none
      by_left [] e = ground (arith, lookup-remove gone profile d)
      by_left (x ∷ l) e = ground arith

  module _ (gone gone_profile : String) (r : HostRegion)
      (here : lookup gone hf.hosts ≡ some r) where
    pub find_profile-without_profile :
        (region profile : String)
        → find_profile (without_profile S hf gone gone_profile r) region profile ≡ (
            if gone == region && gone_profile == profile
            then none
            else find_profile hf region profile)
    unfolding find_profile without_profile
    find_profile-without_profile region profile =
        elim (Bool-cases (is_empty (remove gone_profile r.profiles))) [
          | inl e ↦ rw e (
              ground (
                arith,
                lookup-remove gone region hf.hosts,
                empty-lookup gone_profile profile r.profiles e,
                lookup-nil profile,
                eq_iff gone region,
              ))
          | inr e ↦ rw e (
              ground (
                arith,
                lookup-insert gone region (record { profiles = remove gone_profile r.profiles })
                    hf.hosts,
                lookup-remove gone_profile profile r.profiles,
                lookup-nil profile,
                eq_iff gone region,
              ))
        ]
