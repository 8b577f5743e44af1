-- ===== src/Auth/Store/Session.antt =====
-- `LoadCredentials` after `StoreCredentials`, for credentials with an OAuth2 session.
use ovh_cli.Prelude.{String, true, false, Option, some, ◌≡◌, refl, sym, ◌∙◌, subst, arith, ◌==◌}
use ovh_cli.Auth.Store.Users.{users_apart}
use ovh_cli.Auth.Conf.Kept.{read_creds_from_conf-same}
use ovh_cli.Errors.{ok}
use ovh_cli.Platform.Disk.{IsAtomic}
use ovh_cli.Platform.Keyring.{IsKeyed}
use ovh_cli.Platform.Ini.{IsLawful}
use ovh_cli.Platform.Codec.{IsFaithful}
use ovh_cli.Auth.Credentials.{Credentials, is_zero, method_oauth2}
use ovh_cli.Auth.Keyring.{is_placeholder}
use ovh_cli.Auth.World.{Services, World}
use ovh_cli.Auth.Conf.{
  key_of, read_creds_from_conf, load_default_conf, storage_mode, storage_keyring,
}
use ovh_cli.Auth.Conf.Files.{
  IsFileOrMissing, IsCanonical, write_ovh_conf-Placed, stat_after, load_default_conf-canonical,
}
use ovh_cli.Auth.Hosts.{HostProfile}
use ovh_cli.Auth.HostsFile.{
  TokenField, access_token, refresh_token, token_of, set_token, stored_token, read_profile,
  read_hosts_creds, hosts_or_new,
}
use ovh_cli.Auth.Store.RoundTrip.{
  Stored, is_zero-region, StorableIn, KeptIn, KeptIn-profile, Stored-kept, store_checked-Stored,
  store-guards, load_past_env, conf-Stored,
}
use ovh_cli.Auth.Conf.RoundTrip.{application_part, IsStorable-profile}
use ovh_cli.Auth.Store.{
  file_or_empty, load_stored, has_session, store_checked, store_credentials, load_credentials,
  or_default, is_known, read_env,
}
use ovh_cli.Auth.HostsFile.Tokens.{Applied, apply_tokens-Applied, read_token-form}
use ovh_cli.Auth.HostsFile.Files.{
  SessionWritten, write_hosts_creds-SessionWritten, load_hosts_yml-write, write_hosts_yml-Elsewhere,
  find_profile-with_profile,
}

-- hosts.yml is a file or not there, and it, ovh.conf and the other configuration files are different
-- files that do not hold one another's directories.
pub record IsHostsCanonical (S : Services) (w : World S) : Type 0 where
  pub regular : IsFileOrMissing (S.disk.stat w.files S.hosts_file)
  pub apart : S.disk.is_within S.hosts_file (S.dir_of S.hosts_file) ≡ false
  pub hosts_apart : S.disk.is_within S.hosts_file (S.dir_of S.config_file) ≡ false
  pub config_ne : (S.config_file == S.hosts_file) ≡ false
  pub config_apart : S.disk.is_within S.config_file (S.dir_of S.hosts_file) ≡ false
  pub hosts_ne : (S.hosts_file == S.config_file) ≡ false
  pub local_apart : S.disk.is_within "ovh.conf" (S.dir_of S.hosts_file) ≡ false
  pub local_ne : (S.hosts_file == "ovh.conf") ≡ false
  pub home_apart :
      (h : String)
      → w.home ≡ some h
      → S.disk.is_within (S.join h ".ovh.conf") (S.dir_of S.hosts_file) ≡ false
  pub home_ne : (h : String) → w.home ≡ some h → (S.hosts_file == S.join h ".ovh.conf") ≡ false
  pub system_apart : S.disk.is_within "/etc/ovh.conf" (S.dir_of S.hosts_file) ≡ false
  pub system_ne : (S.hosts_file == "/etc/ovh.conf") ≡ false

-- Where tokens are stored in plaintext, none looks like a placeholder.
abbrev pub TokensStorableIn : (S : Services) → World S → Credentials → Type 0
TokensStorableIn S w c =
    (found : Option (S.ini.File × String))
    → load_default_conf S w ≡ ok found
    → (storage_mode S (some (file_or_empty S found)) == storage_keyring) ≡ false
    → (tf : TokenField) → is_placeholder (token_of tf c) ≡ false

TokensStorable-profile :
    (c : Credentials) (p : String) (tf : TokenField)
    → is_placeholder (token_of tf c) ≡ false
    → is_placeholder (token_of tf (record c { profile = p })) ≡ false
unfolding token_of
TokensStorable-profile c p access_token h = h
TokensStorable-profile c p refresh_token h = h

module _ (S : Services) (A : IsAtomic S.disk) (L : IsLawful S.ini) (K : IsKeyed S.ring)
    (Y : IsFaithful S.yaml) where
  open S use {disk, ini, ring}

  -- ovh.conf is still found after hosts.yml was written.
  pub conf_found :
      (c : Credentials) (w w' : World S) (st : Stored S c w w') (storage : String)
      (ss : SessionWritten S c storage (record w { secrets = st.secrets; files = st.files }) w')
      → IsCanonical S w
      → IsHostsCanonical S w
      → KeptIn S w c
      → load_default_conf S w' ≡ ok (some (st.f', S.config_file))
  conf_found c w w' st storage ss C H kept =
      let (b, done, p) =
        write_ovh_conf-Placed S A L C.config_apart st.f' w.files st.files st.saved in
      let (k, now) = stat_after S A L _ b w.files st.files p refl C.canonical in
      let later = write_hosts_yml-Elsewhere S A Y H.apart _ st.files ss.files ss.saved in
      rw ss.result (
        load_default_conf-canonical S (record w { secrets = ss.secrets; files = ss.files }) k b
          st.f'
          ((later _ H.local_apart H.local_ne).0
            ∙ p.stat_other _ C.local_apart C.local_ne
            ∙ C.local_missing)
          (λ j e.
            (later _ (H.home_apart j e) (H.home_ne j e)).0
            ∙ p.stat_other _ (C.home_apart j e) (C.home_ne j e)
            ∙ C.home_missing j e)
          ((later _ H.config_apart H.hosts_ne).0 ∙ now)
          ((later _ H.config_apart H.hosts_ne).1 ∙ p.read_self)
          (L.parse-write st.f' b (Stored-kept S L c w w' st kept) done))

  -- The session in a profile's entry is read back into credentials that have none.
  profile_back :
      (c c₀ : Credentials) (storage : String) (p old : HostProfile) (s s' : ring.State)
      → Applied S K c storage old s p s'
      → ((storage == storage_keyring) ≡ false
          → (tf : TokenField) → is_placeholder (token_of tf c) ≡ false)
      → (c₀.access_token ≡ "") × (c₀.refresh_token ≡ "") × (c₀.expiry ≡ 0)
      → read_profile S s' c₀ c.region c.profile (some (record p { expiry = c.expiry }))
        ≡ ok (
            some (record c₀ {
              access_token = c.access_token;
              refresh_token = c.refresh_token;
              expiry = c.expiry;
            }))
  unfolding read_profile token_of set_token stored_token
  profile_back c c₀ storage p old s s' ap_ plain (no_access, no_refresh, no_expiry) =
      let q : HostProfile = record p { expiry = c.expiry } in
      let r₁ =
        read_token-form S K c storage access_token q s' c₀ (ap_.form access_token)
          (ap_.kept_in_ring access_token) (λ e. plain e access_token) no_access in
      let r₂ =
        read_token-form S K c storage refresh_token q s'
          (record c₀ { access_token = c.access_token }) (ap_.form refresh_token)
          (ap_.kept_in_ring refresh_token) (λ e. plain e refresh_token) no_refresh in
      rw r₁ (rw r₂ (ground arith))

  load_session :
      (w : World S) (c : Credentials) (f : Option (ini.File × String)) (region profile : String)
      → load_default_conf S w ≡ ok f
      → read_creds_from_conf S w.secrets f region ≡ ok (application_part c)
      → (c.region == "") ≡ false
      → c.method ≡ method_oauth2
      → read_hosts_creds S w (record (application_part c) { profile = profile }) region profile
        ≡ ok (some c)
      → load_stored S w region profile ≡ ok c
  unfolding load_stored application_part
  load_session w c f region profile hf hc hr hm back =
      rw (hf, hc, is_zero-region S (application_part c) hr, hm) (ground arith)

  -- The session that was written is what the load adds to the credentials of ovh.conf.
  hosts_back :
      (c : Credentials) (storage : String) (w w' : World S)
      → SessionWritten S c storage w w'
      → IsFileOrMissing (disk.stat w.files S.hosts_file)
      → disk.is_within S.hosts_file (S.dir_of S.hosts_file) ≡ false
      → ((storage == storage_keyring) ≡ false
          → (tf : TokenField) → is_placeholder (token_of tf c) ≡ false)
      → read_hosts_creds S w'
          (record (application_part c) { profile = c.profile })
          c.region
          c.profile
        ≡ ok (some c)
  unfolding read_hosts_creds application_part
  hosts_back c storage w w' ss regular apart plain =
      let loaded =
        load_hosts_yml-write S A Y apart ss.loaded _ w.files ss.files regular ss.load ss.saved in
      let written =
        apply_tokens-Applied S K c storage _ w.secrets ss.profile ss.secrets ss.applied in
      rw
        (
          ss.result,
          loaded,
          find_profile-with_profile S (hosts_or_new S ss.loaded) c
              (record ss.profile { expiry = c.expiry }),
        )
        (profile_back c (record (application_part c) { profile = c.profile }) storage ss.profile _
          w.secrets ss.secrets written plain (refl, refl, refl))

  load_stored-session :
      (c : Credentials) (w w' : World S)
      → store_checked S c w ≡ (ok tt, w')
      → (c.region == "") ≡ false
      → IsCanonical S w
      → IsHostsCanonical S w
      → StorableIn S w c
      → KeptIn S w c
      → TokensStorableIn S w c
      → c.method ≡ method_oauth2
      → has_session c ≡ true
      → (w'.env ≡ w.env) × (load_stored S w' c.region c.profile ≡ ok c)
  load_stored-session c w w' h hr C H ready kept plain hm hs =
      let st = store_checked-Stored S c w w' h in
      let storage = storage_mode S (some (file_or_empty S st.found)) in
      let w₁ : World S = record w { secrets = st.secrets; files = st.files } in
      let ss = write_hosts_creds-SessionWritten S c storage w₁ w' (rw hs at st.session) in
      let written =
        apply_tokens-Applied S K c storage _ st.secrets ss.profile ss.secrets ss.applied in
      let (b, done, p) =
        write_ovh_conf-Placed S A L C.config_apart st.f' w.files st.files st.saved in
      let regular =
        subst IsFileOrMissing (sym (p.stat_other _ H.hosts_apart H.config_ne)) H.regular in
      let conf_back =
        read_creds_from_conf-same S st.secrets ss.secrets c.region
          (λ sf.
            written.others c.region "default" (key_of sf)
              (λ tf. users_apart c.region c.profile tf sf))
          (some (st.f', S.config_file))
        ∙ (conf-Stored S A L K c w w' st C ready kept).1 in
      (
        rw ss.result refl,
        load_session w' c _ c.region c.profile (conf_found c w w' st storage ss C H kept)
            (rw ss.result conf_back) hr hm
            (hosts_back c storage w₁ w' ss regular H.apart (plain st.found st.loaded)),
      )

  -- Credentials with an OAuth2 session that were stored are loaded again as they were, with their
  -- tokens and expiry, in the profile that was named, if the region is known, the environment holds
  -- none, ovh.conf and hosts.yml are where a load looks for them, the texts are storable, the INI
  -- library reads back what it writes of the ovh.conf that the store starts from, and the region and
  -- the texts that the store adds to it are plain.
  pub load_credentials-store_session :
      (region profile : String) (c : Credentials) (w w' : World S)
      → store_credentials S region profile c w ≡ (ok tt, w')
      → is_known region ≡ true
      → is_zero (read_env w.env region) ≡ true
      → IsCanonical S w
      → IsHostsCanonical S w
      → StorableIn S w c
      → KeptIn S w c
      → TokensStorableIn S w c
      → c.method ≡ method_oauth2
      → has_session c ≡ true
      → load_credentials S w' region profile ≡ ok (record c { profile = or_default profile })
  unfolding token_of has_session
  load_credentials-store_session region profile c w w' h hk he C H ready kept plain hm hs =
      let (hr, same, checked) = store-guards S region profile c w w' h in
      let c₁ : Credentials = record c { profile = or_default profile } in
      let (env, back) =
        load_stored-session c₁ w w' checked (rw same hr) C H
          (λ found e. IsStorable-profile S _ (or_default profile) c (ready found e))
          (KeptIn-profile S w c (or_default profile) kept)
          (λ found e k tf. TokensStorable-profile c (or_default profile) tf (plain found e k tf)) hm
          hs in
      load_past_env S w' region profile hr hk (rw env he)
      ∙ subst (λ r. load_stored S w' r (or_default profile) ≡ ok c₁) same back
