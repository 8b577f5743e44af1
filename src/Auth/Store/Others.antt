-- ===== src/Auth/Store/Others.antt =====
-- A store leaves the credentials of the other regions as they were.
use ovh_cli.Prelude.{
  String, true, false, some, ◌≡◌, ◌≢◌, ◌∙◌, sym, ap, subst, arith, ◌==◌, ne-test, Bool-cases, inl,
  inr,
}
use ovh_cli.Errors.{ok}
use ovh_cli.Platform.Disk.{IsAtomic}
use ovh_cli.Platform.Keyring.{IsKeyed}
use ovh_cli.Platform.Ini.{IsLawful}
use ovh_cli.Platform.Codec.{IsFaithful}
use ovh_cli.Auth.Credentials.{Credentials}
use ovh_cli.Auth.Keyring.{keyring_get}
use ovh_cli.Auth.World.{Services, World}
use ovh_cli.Auth.Conf.{key_of, load_default_conf, read_creds_from_conf}
use ovh_cli.Auth.Conf.Kept.{read_creds_from_conf-same}
use ovh_cli.Auth.Conf.Others.{
  IsSameSection, apply_creds-IsSameSection, apply_creds-kept, read_creds_from_conf-section,
}
use ovh_cli.Auth.Conf.Files.{
  IsCanonical, IsCanonical-secrets, IsFileOrMissing, write_ovh_conf-Placed, load_default_conf-write,
}
use ovh_cli.Auth.HostsFile.{token_key, read_hosts_creds}
use ovh_cli.Auth.HostsFile.Files.{SessionWritten, write_hosts_creds-SessionWritten}
use ovh_cli.Auth.HostsFile.Tokens.{apply_tokens-Applied}
use ovh_cli.Auth.Store.{
  load_stored, load_credentials, store_checked, store_credentials, is_known, or_default,
  has_session, file_or_empty,
}
use ovh_cli.Auth.Store.Names.{regions_apart, known-ne-default}
use ovh_cli.Auth.Store.RoundTrip.{
  KeptIn, KeptIn-profile, Stored-kept, Stored, store_checked-Stored, store-guards,
}
use ovh_cli.Auth.Store.Session.{IsHostsCanonical, conf_found}
use ovh_cli.Auth.Store.Same.{
  load_stored-same, load_credentials-same, read_hosts_creds-IsSame, read_hosts_creds-other,
}

module _ (S : Services) (A : IsAtomic S.disk) (L : IsLawful S.ini) (K : IsKeyed S.ring)
    (Y : IsFaithful S.yaml) where
  open S use {disk, ini, ring}

  module _ (c : Credentials) (other profile : String) (known : is_known c.region ≡ true)
      (other_known : is_known other ≡ true) (ne : c.region ≢ other) where
    section_apart : (c.region == other) ≡ false
    section_apart = ne-test c.region other ne

    conf_kept :
        (w w' : World S) (st : Stored S c w w') (q key : String)
        → keyring_get ring st.secrets other q key ≡ keyring_get ring w.secrets other q key
    conf_kept w w' st q key =
        apply_creds-kept S K c _ _ w.secrets st.f' st.secrets st.applied other q key
          λ sf. regions_apart c.region other "default" q (key_of sf) key known other_known ne

    -- What the configuration gives for the other region, against the keyring after it was written.
    conf_same :
        (w w' : World S) (st : Stored S c w w') (f : ini.File) (path : String)
        → load_default_conf S w ≡ ok (some (f, path))
        → ((k : String) → ini.is_verbatim (ini.raw f other k) ≡ true)
        → read_creds_from_conf S st.secrets (some (st.f', S.config_file)) other
          ≡ read_creds_from_conf S w.secrets (some (f, path)) other
    conf_same w w' st f path h plain =
        let e : file_or_empty S st.found ≡ f = ground (arith, h, st.loaded) in
        let same : IsSameSection S L f st.f' other =
          subst (λ g. IsSameSection S L g st.f' other) e
            (apply_creds-IsSameSection S L c other section_apart (file_or_empty S st.found) _
              w.secrets st.f' st.secrets st.applied (known-ne-default other other_known)
              (λ k. rw e (plain k))) in
        read_creds_from_conf-section S L f st.f' path S.config_file other st.secrets same
        ∙ read_creds_from_conf-same S w.secrets st.secrets other
            (λ sf. conf_kept w w' st "default" (key_of sf)) (some (f, path))

    -- Writing ovh.conf leaves the sessions alone.
    conf_sessions :
        (w w' : World S) (st : Stored S c w w') (c' : Credentials)
        → IsCanonical S w
        → IsHostsCanonical S w
        → (read_hosts_creds S (record w { secrets = st.secrets; files = st.files }) c' other profile
            ≡ read_hosts_creds S w c' other profile)
          × (disk.stat st.files S.hosts_file ≡ disk.stat w.files S.hosts_file)
    conf_sessions w w' st c' C H =
        let (b, _, p) =
          write_ovh_conf-Placed S A L C.config_apart st.f' w.files st.files st.saved in
        let same = p.stat_other S.hosts_file H.hosts_apart H.config_ne in
        (
          read_hosts_creds-IsSame S A L K Y w (record w { secrets = st.secrets; files = st.files })
              H.apart c' other profile (same, p.read_other S.hosts_file H.hosts_apart H.config_ne)
              (λ tf. conf_kept w w' st profile (token_key tf)),
          same,
        )

    without_session :
        (w w' : World S) (st : Stored S c w w') (f : ini.File) (path : String)
        → load_default_conf S w ≡ ok (some (f, path))
        → ((k : String) → ini.is_verbatim (ini.raw f other k) ≡ true)
        → IsCanonical S w
        → IsHostsCanonical S w
        → KeptIn S w c
        → load_stored S (record w { secrets = st.secrets; files = st.files }) other profile
          ≡ load_stored S w other profile
    without_session w w' st f path h plain C H kept =
        load_stored-same S w (record w { secrets = st.secrets; files = st.files }) other profile
          (some (f, path)) (some (st.f', S.config_file)) h
          (load_default_conf-write S A L (record w { secrets = st.secrets })
            (IsCanonical-secrets S w st.secrets C) st.f' st.files (Stored-kept S L c w w' st kept)
            st.saved)
          (conf_same w w' st f path h plain) (λ c'. (conf_sessions w w' st c' C H).0)

    with_session :
        (w w' : World S) (st : Stored S c w w') (storage : String)
        (ss : SessionWritten S c storage (record w { secrets = st.secrets; files = st.files }) w')
        (f : ini.File) (path : String)
        → load_default_conf S w ≡ ok (some (f, path))
        → ((k : String) → ini.is_verbatim (ini.raw f other k) ≡ true)
        → IsCanonical S w
        → IsHostsCanonical S w
        → KeptIn S w c
        → load_stored S w' other profile ≡ load_stored S w other profile
    with_session w w' st storage ss f path h plain C H kept_file =
        let w₁ : World S = record w { secrets = st.secrets; files = st.files } in
        let written =
          apply_tokens-Applied S K c storage _ st.secrets ss.profile ss.secrets ss.applied in
        let ring_same = ap (λ x. x.secrets) ss.result in
        let kept : (q key : String)
            → keyring_get ring w'.secrets other q key ≡ keyring_get ring st.secrets other q key =
          λ q key. rw ring_same (
            written.others other q key (λ tf.
              regions_apart c.region other c.profile q (token_key tf) key known other_known ne)) in
        load_stored-same S w w' other profile (some (f, path)) (some (st.f', S.config_file)) h
          (conf_found S A L K Y c w w' st storage ss C H kept_file)
          (read_creds_from_conf-same S st.secrets w'.secrets other
              (λ sf. kept "default" (key_of sf)) (some (st.f', S.config_file))
            ∙ conf_same w w' st f path h plain)
          (λ c'.
            let (sessions, same) = conf_sessions w w' st c' C H in
            read_hosts_creds-other S A L K Y c c' storage other profile w₁ w' ss section_apart
              (subst IsFileOrMissing (sym same) H.regular) H.apart
              (λ tf. kept profile (token_key tf))
            ∙ sessions)

    store_checked-other :
        (w w' : World S) (f : ini.File) (path : String)
        → store_checked S c w ≡ (ok tt, w')
        → load_default_conf S w ≡ ok (some (f, path))
        → ((k : String) → ini.is_verbatim (ini.raw f other k) ≡ true)
        → IsCanonical S w
        → IsHostsCanonical S w
        → KeptIn S w c
        → (w'.env ≡ w.env) × (load_stored S w' other profile ≡ load_stored S w other profile)
    store_checked-other w w' f path done h plain C H kept =
        let st = store_checked-Stored S c w w' done in
        elim (Bool-cases (has_session c)) [
          | inl e ↦
              let ss = write_hosts_creds-SessionWritten S c _ _ w' (rw e at st.session) in
              (ap (λ x. x.env) ss.result, with_session w w' st _ ss f path h plain C H kept)
          | inr e ↦
              let same : record w { secrets = st.secrets; files = st.files } ≡ w' =
                ap (λ r. r.1) (rw e at st.session) in
              (
                ap (λ x. x.env) (sym same),
                subst (λ x. load_stored S x other profile ≡ load_stored S w other profile) same
                    (without_session w w' st f path h plain C H kept),
              )
        ]

  -- Storing credentials of a region, with or without a session, leaves what a load gives for every
  -- profile of every other known region as it was, an error included, if there is an ovh.conf, it and
  -- hosts.yml are where a load looks for them, the other region's texts in ovh.conf refer to no
  -- other keys, the INI library reads back what it writes of that ovh.conf, and the region and the
  -- texts that the store adds to it are plain.
  pub load_credentials-store_other :
      (region profile other other_profile : String) (c : Credentials) (f : ini.File) (path : String)
      (w w' : World S)
      → store_credentials S region profile c w ≡ (ok tt, w')
      → is_known region ≡ true
      → is_known other ≡ true
      → region ≢ other
      → load_default_conf S w ≡ ok (some (f, path))
      → ((k : String) → ini.is_verbatim (ini.raw f other k) ≡ true)
      → IsCanonical S w
      → IsHostsCanonical S w
      → KeptIn S w c
      → load_credentials S w' other other_profile ≡ load_credentials S w other other_profile
  load_credentials-store_other region profile other other_profile c f path w w' h hk ho ne found
        plain C H kept =
      let (_, same, checked) = store-guards S region profile c w w' h in
      let (env, stored) =
        store_checked-other (record c { profile = or_default profile }) other
          (or_default other_profile) (rw same hk) ho (λ e. ne (sym same ∙ e)) w w' f path checked
          found plain C H (KeptIn-profile S w c (or_default profile) kept) in
      load_credentials-same S w w' other other_profile env stored
