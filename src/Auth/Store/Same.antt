-- ===== src/Auth/Store/Same.antt =====
-- When two worlds give the same credentials for a region.
use ovh_cli.Prelude.{
  String, false, not, Option, some, [], ◌∷◌, ◌≡◌, refl, ◌∙◌, ap, arith, ◌==◌, if◌then◌else◌,
}
use ovh_cli.Errors.{ok, ◌>>=◌, ◌>>◌, assert, ensure, errorf, sentinel, not_configured}
use ovh_cli.Platform.Disk.{IsAtomic}
use ovh_cli.Platform.Keyring.{IsKeyed}
use ovh_cli.Platform.Ini.{IsLawful}
use ovh_cli.Platform.Codec.{IsFaithful}
use ovh_cli.Auth.Credentials.{Credentials, is_zero, method_oauth2}
use ovh_cli.Auth.Hosts.{HostProfile, HostsFile}
use ovh_cli.Auth.Keyring.{keyring_get}
use ovh_cli.Auth.World.{Services, World}
use ovh_cli.Auth.Conf.{load_default_conf, read_creds_from_conf}
use ovh_cli.Auth.Conf.Kept.{bind-cong}
use ovh_cli.Auth.Conf.Files.{IsFileOrMissing}
use ovh_cli.Auth.HostsFile.{
  TokenField, token_key, load_hosts_yml, read_hosts_creds, read_profile, entry_of, hosts_or_new,
  with_profile,
}
use ovh_cli.Auth.HostsFile.Files.{SessionWritten, load_hosts_yml-write}
use ovh_cli.Auth.HostsFile.Profiles.{read_profile-same}
use ovh_cli.Auth.HostsFile.Sessions.Entries.{find_profile-with_profile_if}
use ovh_cli.Auth.HostsFile.Sessions.Refinement.{find_profile-hosts_or_new}
use ovh_cli.Auth.HostsFile.Sessions.Unchanged.{IsSame, load_hosts_yml-IsSame}
use ovh_cli.Auth.Store.{read_env, load_stored, load_credentials, is_known, or_default, merged}

module _ (S : Services) where
  -- Loads agree where ovh.conf gives the same credentials and hosts.yml the same sessions.
  pub load_stored-same :
      (w w' : World S) (region profile : String) (f f' : Option (S.ini.File × String))
      → load_default_conf S w ≡ ok f
      → load_default_conf S w' ≡ ok f'
      → read_creds_from_conf S w'.secrets f' region ≡ read_creds_from_conf S w.secrets f region
      → ((c : Credentials)
          → read_hosts_creds S w' c region profile ≡ read_hosts_creds S w c region profile)
      → load_stored S w' region profile ≡ load_stored S w region profile
  unfolding load_stored
  load_stored-same w w' region profile f f' h h' same sessions =
      rw (h, h')
        (bind-cong (read_creds_from_conf S w'.secrets f' region)
          (read_creds_from_conf S w.secrets f region) _ _ same
          λ c.
            bind-cong (ensure (not (is_zero c)) (sentinel not_configured)) _ _ _ refl
              λ _. with_session c)
    where
      with_session :
          (c : Credentials)
          → (if c.method == method_oauth2
              then (read_hosts_creds S w' (record c { profile = profile }) region profile
                  >>= λ found. ok (merged S (record c { profile = profile }) found))
              else ok (record c { profile = profile }))
            ≡ (if c.method == method_oauth2
                then (read_hosts_creds S w (record c { profile = profile }) region profile
                    >>= λ found. ok (merged S (record c { profile = profile }) found))
                else ok (record c { profile = profile }))
      with_session c = rw (sessions (record c { profile = profile })) refl

  pub load_credentials-same :
      (w w' : World S) (region profile : String)
      → w'.env ≡ w.env
      → load_stored S w' region (or_default profile) ≡ load_stored S w region (or_default profile)
      → load_credentials S w' region profile ≡ load_credentials S w region profile
  unfolding load_credentials
  load_credentials-same w w' region profile e h =
      bind-cong
        (assert (not (region == ""))
            "auth.LoadCredentials: region must not be empty (PRD-03 pre-condition)"
          >> ensure (is_known region) (errorf "auth: unknown region %q" (region ∷ [])))
        _ _ _ refl λ _. stored_or_env
    where
      stored_or_env :
          (if not (is_zero (read_env w'.env region))
            then ok (record (read_env w'.env region) { profile = or_default profile })
            else load_stored S w' region (or_default profile))
          ≡ (if not (is_zero (read_env w.env region))
              then ok (record (read_env w.env region) { profile = or_default profile })
              else load_stored S w region (or_default profile))
      stored_or_env = ground (arith, h, ap (λ env. read_env env region) e)

module _ (S : Services) (A : IsAtomic S.disk) (L : IsLawful S.ini) (K : IsKeyed S.ring)
    (Y : IsFaithful S.yaml) where
  open S use {disk, ini, ring}

  -- The tokens of a region's profile are the same in both keyrings.
  abbrev IsTokensSame : ring.State → ring.State → String → String → Type 0
  IsTokensSame s s' region profile =
      (tf : TokenField)
      → keyring_get ring s' region profile (token_key tf)
        ≡ keyring_get ring s region profile (token_key tf)

  pub read_hosts_creds-IsSame :
      (w w' : World S) (apart : disk.is_within S.hosts_file (S.dir_of S.hosts_file) ≡ false)
      (c : Credentials) (region profile : String)
      → IsSame S A apart w.files w'.files
      → IsTokensSame w.secrets w'.secrets region profile
      → read_hosts_creds S w' c region profile ≡ read_hosts_creds S w c region profile
  unfolding read_hosts_creds
  read_hosts_creds-IsSame w w' apart c region profile same kept =
      bind-cong (load_hosts_yml S w'.files) (load_hosts_yml S w.files) _ _
        (load_hosts_yml-IsSame S A apart w.files w'.files same)
        λ hf.
          read_profile-same S A K Y w.secrets w'.secrets c region profile
            (entry_of S hf region profile) kept

  entry_of-other :
      (loaded : Option HostsFile) (c : Credentials) (p : HostProfile) (other profile : String)
      → (c.region == other) ≡ false
      → entry_of S (some (with_profile S (hosts_or_new S loaded) c p)) other profile
        ≡ entry_of S loaded other profile
  entry_of-other loaded c p other profile ne =
      find_profile-with_profile_if S (hosts_or_new S loaded) c p other profile
      ∙ rw ne (find_profile-hosts_or_new S loaded other profile)

  pub read_hosts_creds-other :
      (c c' : Credentials) (storage other profile : String) (w w' : World S)
      → SessionWritten S c storage w w'
      → (c.region == other) ≡ false
      → IsFileOrMissing (disk.stat w.files S.hosts_file)
      → disk.is_within S.hosts_file (S.dir_of S.hosts_file) ≡ false
      → IsTokensSame w.secrets w'.secrets other profile
      → read_hosts_creds S w' c' other profile ≡ read_hosts_creds S w c' other profile
  unfolding read_hosts_creds
  read_hosts_creds-other c c' storage other profile w w' ss ne regular apart kept =
      let loaded =
        load_hosts_yml-write S A Y apart ss.loaded _ w.files ss.files regular ss.load ss.saved in
      let same_files = ap (λ x. x.files) ss.result in
      rw (same_files, loaded, ss.load)
        (ap (read_profile S w'.secrets c' other profile)
            (entry_of-other ss.loaded c (record ss.profile { expiry = c.expiry }) other profile ne)
          ∙ read_profile-same S A K Y w.secrets w'.secrets c' other profile
              (entry_of S ss.loaded other profile) kept)
