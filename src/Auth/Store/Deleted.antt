-- ===== src/Auth/Store/Deleted.antt =====
-- `LoadCredentials` after `DeleteCredentials`.
use ovh_cli.Prelude.{
  String, true, false, Option, some, none, ◌≡◌, refl, sym, ◌∙◌, ap, subst, arith, ◌==◌, eq_refl,
  Bool-cases, inl, inr,
}
use ovh_cli.Prelude.Dict.{lookup}
use ovh_cli.Errors.{Result, ok, err, panic, sentinel, not_configured}
use ovh_cli.Effect.{chain-eq-ok, chain_lift-eq-ok}
use ovh_cli.Platform.Disk.{IsAtomic}
use ovh_cli.Platform.Ini.{IsLawful}
use ovh_cli.Platform.Codec.{IsFaithful}
use ovh_cli.Auth.Credentials.{is_zero, zero_credentials}
use ovh_cli.Auth.World.{Services, World}
use ovh_cli.Auth.Hosts.{HostsFile, HostRegion}
use ovh_cli.Auth.Conf.{read_creds_from_conf, load_default_conf, write_ovh_conf}
use ovh_cli.Auth.Conf.Files.{
  IsFileOrMissing, IsCanonical, IsCanonical-secrets, load_default_conf-write,
}
use ovh_cli.Auth.Conf.Same.{IsSameConf, load_default_conf-same}
use ovh_cli.Auth.Keyring.{keyring_delete}
use ovh_cli.Auth.HostsFile.{
  load_hosts_yml, write_hosts_yml, rewrite_hosts, delete_hosts_creds, without_profile,
}
use ovh_cli.Auth.HostsFile.Files.{write_hosts_yml-Elsewhere}
use ovh_cli.Auth.Store.{
  delete_secrets, delete_section, on_files, delete_credentials, load_stored, load_credentials,
  read_env, or_default, is_known, file_or_empty,
}
use ovh_cli.Auth.Store.RoundTrip.{load_past_env}
use ovh_cli.Auth.Store.Session.{IsHostsCanonical}

module _ (S : Services) (A : IsAtomic S.disk) (Y : IsFaithful S.yaml) where
  open S use {disk, ring}

  IsCanonical-hosts :
      (w : World S) (f : HostsFile) (files : disk.State) (s : ring.State)
      → IsCanonical S w
      → IsHostsCanonical S w
      → write_hosts_yml S f w.files ≡ (ok tt, files)
      → IsCanonical S (record w { secrets = s; files = files })
  IsCanonical-hosts w f files s C H h =
      let later = write_hosts_yml-Elsewhere S A Y H.apart f w.files files h in
      record {
        local_missing = (later _ H.local_apart H.local_ne).0 ∙ C.local_missing;
        home_missing = λ j e. (later _ (H.home_apart j e) (H.home_ne j e)).0 ∙ C.home_missing j e;
        canonical = subst IsFileOrMissing (sym (later _ H.config_apart H.hosts_ne).0) C.canonical;
        config_apart = C.config_apart;
        local_apart = C.local_apart;
        local_ne = C.local_ne;
        home_apart = C.home_apart;
        home_ne = C.home_ne;
      }

  IsSameConf-hosts :
      (w : World S) (f : HostsFile) (files : disk.State)
      → IsHostsCanonical S w
      → write_hosts_yml S f w.files ≡ (ok tt, files)
      → IsSameConf S w (record w { files = files })
  IsSameConf-hosts w f files H h =
      let later = write_hosts_yml-Elsewhere S A Y H.apart f w.files files h in
      record {
        home = refl;
        at_local = later _ H.local_apart H.local_ne;
        at_home = λ j e. later _ (H.home_apart j e) (H.home_ne j e);
        at_config = later _ H.config_apart H.hosts_ne;
        at_system = later _ H.system_apart H.system_ne;
      }

  IsSameConf-refl : (w : World S) → IsSameConf S w w
  IsSameConf-refl w = record {
    home = refl;
    at_local = (refl, refl);
    at_home = λ j e. (refl, refl);
    at_config = (refl, refl);
    at_system = (refl, refl);
  }

  IsSameConf-ring :
      (w w' : World S) (s : ring.State)
      → IsSameConf S (record w { secrets = s }) w'
      → IsSameConf S w w'
  IsSameConf-ring w w' s h = record {
    home = h.home;
    at_local = h.at_local;
    at_home = h.at_home;
    at_config = h.at_config;
    at_system = h.at_system;
  }

  rewrite_hosts-IsCanonical :
      (w : World S) (region profile : String) (hf : Option HostsFile) (w' : World S)
      → IsCanonical S w
      → IsHostsCanonical S w
      → rewrite_hosts S w region profile hf ≡ (ok tt, w')
      → IsCanonical S w' × (w'.env ≡ w.env) × IsSameConf S w w'
  unfolding rewrite_hosts
  rewrite_hosts-IsCanonical w region profile none w' C H h =
      let e : w ≡ w' = ground arith in
      (
        subst (IsCanonical S) e C,
        ap (λ x. x.env) (sym e),
        subst (IsSameConf S w) e (IsSameConf-refl w),
      )
  rewrite_hosts-IsCanonical w region profile (some hf) w' C H h =
      by_region (lookup region hf.hosts) refl
    where
      by_region :
          (o : Option HostRegion)
          → lookup region hf.hosts ≡ o
          → IsCanonical S w' × (w'.env ≡ w.env) × IsSameConf S w w'
      by_region none e =
          let q : w ≡ w' = ground arith in
          (
            subst (IsCanonical S) q C,
            ap (λ x. x.env) (sym q),
            subst (IsSameConf S w) q (IsSameConf-refl w),
          )
      by_region (some r) e =
          let r' = write_hosts_yml S (without_profile S hf region profile r) w.files in
          let written : write_hosts_yml S (without_profile S hf region profile r) w.files
              ≡ (ok tt, (write_hosts_yml S (without_profile S hf region profile r) w.files).1) =
            ground arith in
          let q : record w {
            files = (write_hosts_yml S (without_profile S hf region profile r) w.files).1;
          }
              ≡ w' =
            ground arith in
          (
            subst (IsCanonical S) q (IsCanonical-hosts w _ _ w.secrets C H written),
            ap (λ x. x.env) (sym q),
            subst (IsSameConf S w) q (IsSameConf-hosts w _ _ H written),
          )

  IsCanonical-ring :
      (w : World S) (s : ring.State)
      → IsHostsCanonical S w
      → IsHostsCanonical S (record w { secrets = s })
  IsCanonical-ring w s H = record {
    regular = H.regular;
    apart = H.apart;
    hosts_apart = H.hosts_apart;
    config_ne = H.config_ne;
    config_apart = H.config_apart;
    hosts_ne = H.hosts_ne;
    local_apart = H.local_apart;
    local_ne = H.local_ne;
    home_apart = H.home_apart;
    home_ne = H.home_ne;
    system_apart = H.system_apart;
    system_ne = H.system_ne;
  }

  delete_hosts_creds-IsCanonical :
      (w : World S) (region profile : String) (w' : World S)
      → IsCanonical S w
      → IsHostsCanonical S w
      → delete_hosts_creds S region profile w ≡ (ok tt, w')
      → IsCanonical S w' × (w'.env ≡ w.env) × IsSameConf S w w'
  unfolding delete_hosts_creds
  delete_hosts_creds-IsCanonical w region profile w' C H h =
      let s₁ = (keyring_delete ring region profile "access_token" w.secrets).1 in
      let s₂ = (keyring_delete ring region profile "refresh_token" s₁).1 in
      let w₁ : World S = record w { secrets = s₂ } in
      let (hf, _, r) = chain_lift-eq-ok (load_hosts_yml S w.files) w₁ _ h in
      let (C', env, same) =
        rewrite_hosts-IsCanonical w₁ region profile hf w' (IsCanonical-secrets S w s₂ C)
          (IsCanonical-ring w s₂ H) r in
      (C', env, IsSameConf-ring w w' s₂ same)

module _ (S : Services) (A : IsAtomic S.disk) (L : IsLawful S.ini) (Y : IsFaithful S.yaml) where
  open S use {disk, ring, ini}

  -- A configuration without the region's section gives no credentials.
  load_stored-missing :
      (w : World S) (region profile : String) (found : Option (ini.File × String))
      → load_default_conf S w ≡ ok found
      → read_creds_from_conf S w.secrets found region ≡ ok zero_credentials
      → load_stored S w region profile ≡ err (sentinel not_configured)
  unfolding load_stored is_zero
  load_stored-missing w region profile found h k = rw (h, k)

  no_file_read :
      (s : ring.State) (region : String)
      → read_creds_from_conf S s none region ≡ ok zero_credentials
  unfolding read_creds_from_conf
  no_file_read s region = refl

  no_section :
      (s : ring.State) (f : ini.File) (path region : String)
      → ini.has_section f region ≡ false
      → read_creds_from_conf S s (some (f, path)) region ≡ ok zero_credentials
  unfolding read_creds_from_conf
  no_section s f path region h = rw h

  delete_section-missing :
      (w : World S) (region profile : String) (found : Option (ini.File × String)) (w' : World S)
      → IsCanonical S w
      → load_default_conf S w ≡ ok found
      → ini.is_kept (file_or_empty S found) ≡ true
      → delete_section S region found w ≡ (ok tt, w')
      → (w'.env ≡ w.env) × (load_stored S w' region profile ≡ err (sentinel not_configured))
  unfolding delete_section on_files
  delete_section-missing w region profile none w' C found kept h =
      let e : w ≡ w' = ground arith in
      subst
        (λ v. (v.env ≡ w.env) × (load_stored S v region profile ≡ err (sentinel not_configured))) e
        (refl, load_stored-missing w region profile none found (no_file_read w.secrets region))
  delete_section-missing w region profile (some (f, path)) w' C found kept h =
      elim (Bool-cases (ini.has_section f region)) [
        | inr e ↦
            let q : w ≡ w' = ground arith in
            subst
              (λ v.
                (v.env ≡ w.env) × (load_stored S v region profile ≡ err (sentinel not_configured)))
              q
              (
                refl,
                load_stored-missing w region profile _ found (no_section w.secrets f path region e),
              )
        | inl e ↦
            let f' = ini.delete_section f region in
            let files = (write_ovh_conf S f' w.files).1 in
            let written : write_ovh_conf S (ini.delete_section f region) w.files
                ≡ (ok tt, (write_ovh_conf S (ini.delete_section f region) w.files).1) =
              ground arith in
            let q : record w { files = (write_ovh_conf S (ini.delete_section f region) w.files).1 }
                ≡ w' =
              ground arith in
            subst
              (λ v.
                (v.env ≡ w.env) × (load_stored S v region profile ≡ err (sentinel not_configured)))
              q
              (
                refl,
                load_stored-missing _ region profile _
                    (load_default_conf-write S A L w C (ini.delete_section f region) _
                      (L.kept-delete_section f region kept) written)
                    (no_section w.secrets (ini.delete_section f region) S.config_file region
                      (L.has-delete_section f region region ∙ rw eq_refl)),
              )
      ]

  -- After a delete that succeeded, a load of the region fails with `ErrNotConfigured` in every
  -- profile, also in those that were not named, if the region is known, the environment holds no
  -- credentials, ovh.conf and hosts.yml are where a load looks for them, and the INI library reads
  -- back what it writes of the ovh.conf that is found.
  pub load_credentials-delete_credentials :
      (region profile other_profile : String) (w w' : World S)
      → delete_credentials S region profile w ≡ (ok tt, w')
      → is_known region ≡ true
      → is_zero (read_env w.env region) ≡ true
      → IsCanonical S w
      → IsHostsCanonical S w
      → ((found : Option (ini.File × String))
          → load_default_conf S w ≡ ok found
          → ini.is_kept (file_or_empty S found) ≡ true)
      → load_credentials S w' region other_profile ≡ err (sentinel not_configured)
  unfolding delete_credentials
  load_credentials-delete_credentials region profile other_profile w w' h hk he C H kept =
      elim (Bool-cases (region == "")) [
        | inl e ↦ absurd (panicked w w' (rw e at h))
        | inr e ↦
            let p = or_default profile in
            let s = delete_secrets S region p w.secrets in
            let w₁ : World S = record w { secrets = s } in
            let (_, w₂, h₂, r₂) = chain-eq-ok (delete_hosts_creds S region p w₁) _ (rw e at h) in
            let (C₂, env₂, same) =
              delete_hosts_creds-IsCanonical S A Y w₁ region p w₂ (IsCanonical-secrets S w s C)
                (IsCanonical-ring S A Y w s H) h₂ in
            let (found, h₃, r₃) = chain_lift-eq-ok (load_default_conf S w₂) w₂ _ r₂ in
            let (env₃, gone) =
              delete_section-missing w₂ region (or_default other_profile) found w' C₂ h₃
                (kept found
                  (sym (load_default_conf-same S w w₂ (IsSameConf-ring S A Y w w₂ s same)) ∙ h₃))
                r₃ in
            load_past_env S w' region other_profile e hk (rw (env₃, env₂) he) ∙ gone
      ]
    where
      panicked :
          (w w' : World S)
          → ◌≡◌ {A = Result (Unit {0}) × World S}
              (panic "auth.DeleteCredentials: region must not be empty (PRD-03 pre-condition)", w)
              (ok tt, w')
          → ⊥
      panicked w w' q = cc
