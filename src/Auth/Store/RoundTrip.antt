-- ===== src/Auth/Store/RoundTrip.antt =====
-- `LoadCredentials` after `StoreCredentials`.
use ovh_cli.Prelude.{String, true, false, ◌==◌, ◌≡◌, refl, ◌∙◌, ap, sym, subst, arith, eq_iff}
use ovh_cli.Prelude.{Option, some, if◌then◌else◌}
use ovh_cli.Errors.{Result, ok, err, panic}
use ovh_cli.Effect.{Effect, chain, chain_lift-eq-ok}
use ovh_cli.Platform.Disk.{IsAtomic}
use ovh_cli.Platform.Keyring.{IsKeyed}
use ovh_cli.Platform.Ini.{IsLawful}
use ovh_cli.Auth.Conf.Writable.{ArePlain, ArePlain-profile, apply_creds-kept_file}
use ovh_cli.Auth.Credentials.{Credentials, is_zero, method_consumer_key}
use ovh_cli.Auth.World.{Services, World}
use ovh_cli.Auth.Conf.{
  load_default_conf, read_creds_from_conf, storage_mode, touch_storage, apply_creds, write_ovh_conf,
}
use ovh_cli.Auth.Conf.RoundTrip.{
  application_part, IsStorable, IsStorable-profile, read_creds_from_conf-apply_creds,
}
use ovh_cli.Auth.Conf.Files.{IsCanonical, IsCanonical-secrets, load_default_conf-write}
use ovh_cli.Auth.Store.{
  read_env, or_default, is_known, has_session, file_or_empty, store_checked, store_credentials,
  load_stored, load_credentials,
}
use ovh_cli.Auth.HostsFile.{write_hosts_creds}

-- Credentials of the classic flow carry no session.
pub record IsClassic (c : Credentials) : Type 0 where
  pub method : c.method ≡ method_consumer_key
  pub no_access : c.access_token ≡ ""
  pub no_refresh : c.refresh_token ≡ ""
  pub no_expiry : c.expiry ≡ 0

-- The file that a store starts from, if the search for it succeeds.
abbrev pub StorableIn : (S : Services) → World S → Credentials → Type 0
StorableIn S w c =
    (found : Option (S.ini.File × String))
    → load_default_conf S w ≡ ok found
    → IsStorable S (storage_mode S (some (file_or_empty S found))) c

-- The file that a store starts from comes back from what is written of it, and the region and the
-- texts that the store adds are plain.
abbrev pub KeptIn : (S : Services) → World S → Credentials → Type 0
KeptIn S w c =
    (found : Option (S.ini.File × String))
    → load_default_conf S w ≡ ok found
    → (S.ini.is_kept (file_or_empty S found) ≡ true)
      × ArePlain c (storage_mode S (some (file_or_empty S found)))

pub KeptIn-profile :
    (S : Services) (w : World S) (c : Credentials) (p : String)
    → KeptIn S w c
    → KeptIn S w (record c { profile = p })
KeptIn-profile S w c p h found e =
    let (kept, plain) = h found e in (kept, ArePlain-profile c _ p plain)

module _ (S : Services) where
  -- The steps of a store that succeeds.
  pub record Stored (c : Credentials) (w w' : World S) : Type 0 where
    pub found : Option (S.ini.File × String)
    pub loaded : load_default_conf S w ≡ ok found
    pub f' : S.ini.File
    pub secrets : S.ring.State
    pub files : S.disk.State
    pub applied :
        apply_creds S
          (touch_storage S (file_or_empty S found))
          c
          (storage_mode S (some (file_or_empty S found)))
          w.secrets
        ≡ (ok f', secrets)
    pub saved : write_ovh_conf S f' w.files ≡ (ok tt, files)
    pub session :
        (if has_session c
          then write_hosts_creds S c
              (storage_mode S (some (file_or_empty S found)))
              (record w { secrets = secrets; files = files })
          else (ok tt, record w { secrets = secrets; files = files }))
        ≡ (ok tt, w')

  chain_ring-eq-ok :
      (r : Result S.ini.File × S.ring.State) (w : World S)
      (f : S.ini.File → Effect (World S) (Unit {0})) {w' : World S}
      → chain (r.0, record w { secrets = r.1 }) f ≡ (ok tt, w')
      → (a : S.ini.File) × (s : S.ring.State) × (r ≡ (ok a, s))
        × (f a (record w { secrets = s }) ≡ (ok tt, w'))
  chain_ring-eq-ok (ok a, s) w f h = (a, s, refl, h)
  chain_ring-eq-ok (err e, s) w f h = cc
  chain_ring-eq-ok (panic m, s) w f h = cc

  chain_files-eq-ok :
      (r : Result (Unit {0}) × S.disk.State) (w : World S)
      (f : Unit {0} → Effect (World S) (Unit {0})) {w' : World S}
      → chain (r.0, record w { files = r.1 }) f ≡ (ok tt, w')
      → (s : S.disk.State) × (r ≡ (ok tt, s)) × (f tt (record w { files = s }) ≡ (ok tt, w'))
  chain_files-eq-ok (ok tt, s) w f h = (s, refl, h)
  chain_files-eq-ok (err e, s) w f h = cc
  chain_files-eq-ok (panic m, s) w f h = cc

  pub store_checked-Stored :
      (c : Credentials) (w w' : World S) → store_checked S c w ≡ (ok tt, w') → Stored c w w'
  unfolding store_checked
  store_checked-Stored c w w' h =
      let (found, h₀, r₀) = chain_lift-eq-ok (load_default_conf S w) w _ h in
      let f = touch_storage S (file_or_empty S found) in
      let storage = storage_mode S (some (file_or_empty S found)) in
      let (f', s, h₁, r₁) = chain_ring-eq-ok (apply_creds S f c storage w.secrets) w _ r₀ in
      let (files, h₂, r₂) =
        chain_files-eq-ok (write_ovh_conf S f' w.files) (record w { secrets = s }) _ r₁ in
      record {
        found = found;
        loaded = h₀;
        f' = f';
        secrets = s;
        files = files;
        applied = h₁;
        saved = h₂;
        session = r₂;
      }

  pub is_zero-region : (c : Credentials) → (c.region == "") ≡ false → is_zero c ≡ false
  unfolding is_zero
  is_zero-region c h = rw h

  load_classic :
      (w : World S) (c : Credentials) (f : Option (S.ini.File × String))
      → load_default_conf S w ≡ ok f
      → read_creds_from_conf S w.secrets f c.region ≡ ok (application_part c)
      → (c.region == "") ≡ false
      → IsClassic c
      → load_stored S w c.region c.profile ≡ ok c
  unfolding load_stored application_part
  load_classic w c f hf hc hr classic =
      rw (hf, hc, is_zero-region (application_part c) hr, classic.method) (ground arith)

  -- The guards that a store passes.
  pub store-guards :
      (region profile : String) (c : Credentials) (w w' : World S)
      → store_credentials S region profile c w ≡ (ok tt, w')
      → ((region == "") ≡ false)
        × (c.region ≡ region)
        × (store_checked S (record c { profile = or_default profile }) w ≡ (ok tt, w'))
  unfolding store_credentials
  store-guards region profile c w w' h = ground (arith, eq_iff c.region region)

  pub load_past_env :
      (w : World S) (region profile : String)
      → (region == "") ≡ false
      → is_known region ≡ true
      → is_zero (read_env w.env region) ≡ true
      → load_credentials S w region profile ≡ load_stored S w region (or_default profile)
  unfolding load_credentials
  load_past_env w region profile hr hk he = rw (hr, hk, he)

  classic-has_session : (c : Credentials) → IsClassic c → has_session c ≡ false
  unfolding has_session
  classic-has_session c classic = rw classic.method

module _ (S : Services) (L : IsLawful S.ini) where
  -- The file that the store writes is one that the library reads back.
  pub Stored-kept :
      (c : Credentials) (w w' : World S) (st : Stored S c w w')
      → KeptIn S w c
      → S.ini.is_kept st.f' ≡ true
  Stored-kept c w w' st h =
      let (kept, plain) = h st.found st.loaded in
      apply_creds-kept_file S L c _ plain _ w.secrets st.f' st.secrets st.applied kept

module _ (S : Services) (A : IsAtomic S.disk) (L : IsLawful S.ini) (K : IsKeyed S.ring) where
  -- What a successful store has made of ovh.conf and the keyring is found and read back.
  pub conf-Stored :
      (c : Credentials) (w w' : World S) (st : Stored S c w w')
      → IsCanonical S w
      → StorableIn S w c
      → KeptIn S w c
      → (load_default_conf S (record w { secrets = st.secrets; files = st.files })
          ≡ ok (some (st.f', S.config_file)))
        × (read_creds_from_conf S st.secrets (some (st.f', S.config_file)) c.region
            ≡ ok (application_part c))
  conf-Stored c w w' st C ready kept = (
    load_default_conf-write S A L (record w { secrets = st.secrets })
        (IsCanonical-secrets S w st.secrets C) st.f' st.files (Stored-kept S L c w w' st kept)
        st.saved,
    read_creds_from_conf-apply_creds S L _ c K (ready st.found st.loaded) _ w.secrets st.f'
        st.secrets st.applied S.config_file,
  )

  load_stored-store_checked :
      (c : Credentials) (w w' : World S)
      → store_checked S c w ≡ (ok tt, w')
      → (c.region == "") ≡ false
      → IsCanonical S w
      → StorableIn S w c
      → KeptIn S w c
      → IsClassic c
      → (w'.env ≡ w.env) × (load_stored S w' c.region c.profile ≡ ok c)
  load_stored-store_checked c w w' h hr C ready kept classic =
      let st = store_checked-Stored S c w w' h in
      let (found, back) = conf-Stored c w w' st C ready kept in
      let e : record w { secrets = st.secrets; files = st.files } ≡ w' =
        ap (λ r. r.1) (rw (classic-has_session S c classic) at st.session) in
      (
        ap (λ v. v.env) (sym e),
        subst (λ v. load_stored S v c.region c.profile ≡ ok c) e
            (load_classic S _ c _ found back hr classic),
      )

  -- Credentials of the classic flow that were stored are loaded again as they were, in the profile
  -- that was named, if the region is known, the environment holds none, no configuration file
  -- stands before the canonical one, the texts are storable, the INI library reads back what it
  -- writes of the file that the store starts from, and the region and the texts that the store adds
  -- are plain.
  pub load_credentials-store_classic :
      (region profile : String) (c : Credentials) (w w' : World S)
      → store_credentials S region profile c w ≡ (ok tt, w')
      → is_known region ≡ true
      → is_zero (read_env w.env region) ≡ true
      → IsCanonical S w
      → StorableIn S w c
      → KeptIn S w c
      → IsClassic c
      → load_credentials S w' region profile ≡ ok (record c { profile = or_default profile })
  load_credentials-store_classic region profile c w w' h hk he C ready kept classic =
      let (hr, same, checked) = store-guards S region profile c w w' h in
      let c₁ : Credentials = record c { profile = or_default profile } in
      let (env, back) =
        load_stored-store_checked c₁ w w' checked (rw same hr) C
          (λ found e. IsStorable-profile S _ (or_default profile) c (ready found e))
          (KeptIn-profile S w c (or_default profile) kept)
          (record {
            method = classic.method;
            no_access = classic.no_access;
            no_refresh = classic.no_refresh;
            no_expiry = classic.no_expiry;
          }) in
      load_past_env S w' region profile hr hk (rw env he)
      ∙ subst (λ r. load_stored S w' r (or_default profile) ≡ ok c₁) same back
