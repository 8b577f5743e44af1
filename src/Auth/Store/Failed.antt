-- ===== src/Auth/Store/Failed.antt =====
-- What a store or a delete that fails leaves on the disk.
use ovh_cli.Prelude.{
  [], String, false, true, Bool, Option, none, some, ◌≡◌, ◌≢◌, refl, ◌==◌, ◌&&◌, not, if◌then◌else◌,
}
use ovh_cli.Errors.{Result, ok, wrap_err}
use ovh_cli.Effect.{chain, chain_kept, chain_failed, if_property}
use ovh_cli.Platform.Disk.{IsAtomic}
use ovh_cli.Auth.Credentials.{Credentials, is_zero}
use ovh_cli.Auth.World.{Services, World}
use ovh_cli.Auth.Conf.{load_default_conf, storage_mode, touch_storage, apply_creds, write_ovh_conf}
use ovh_cli.Auth.HostsFile.{
  load_hosts_yml, write_hosts_yml, write_hosts_creds, rewrite_hosts, delete_hosts_creds,
  without_profile, apply_tokens, profile_or_zero, find_profile, hosts_or_new,
}
use ovh_cli.Auth.Store.{
  store_credentials, store_checked, delete_credentials, delete_secrets, delete_section, has_session,
  or_default, on_ring, on_files, file_or_empty,
}
use ovh_cli.Prelude.Dict.{lookup}
use ovh_cli.Auth.Hosts.{HostsFile, HostRegion}
use ovh_cli.Auth.Conf.Untouched.{IsUntouched, IsUntouched-trans, saved-failed, saved-other}

module _ (S : Services) (A : IsAtomic S.disk) (p : String) where
  open S use {disk, ring, ini, yaml}

  -- The file on the disks of two worlds.
  abbrev pub IsUntouchedIn : World S → World S → Type 0
  IsUntouchedIn w w' = IsUntouched S A p w.files w'.files

  module _ (out_conf : disk.is_within p (S.dir_of S.config_file) ≡ false)
      (out_hosts : disk.is_within p (S.dir_of S.hosts_file) ≡ false) where
    write_conf-failed :
        (f : ini.File) (w : World S)
        → (on_files S (write_ovh_conf S f) w).0 ≢ ok tt
        → IsUntouchedIn w (on_files S (write_ovh_conf S f) w).1
    unfolding on_files write_ovh_conf
    write_conf-failed f w =
        saved-failed S A p S.config_file (wrap_err "auth: marshal ini: %w" [] (ini.write_to f))
          w.files out_conf

    write_conf-other :
        (f : ini.File) (w : World S)
        → (S.config_file == p) ≡ false
        → IsUntouchedIn w (on_files S (write_ovh_conf S f) w).1
    unfolding on_files write_ovh_conf
    write_conf-other f w =
        saved-other S A p S.config_file (wrap_err "auth: marshal ini: %w" [] (ini.write_to f))
          w.files out_conf

    write_hosts_creds-failed :
        (c : Credentials) (storage : String) (w : World S)
        → (write_hosts_creds S c storage w).0 ≢ ok tt
        → IsUntouchedIn w (write_hosts_creds S c storage w).1
    unfolding write_hosts_creds write_hosts_yml
    write_hosts_creds-failed c storage w =
        chain_failed (IsUntouchedIn w) (load_hosts_yml S w.files, w) _ (λ _. (refl, refl))
          λ loaded _.
            let hf = hosts_or_new S loaded in
            let (applied, s) =
              apply_tokens S c storage (profile_or_zero (find_profile hf c.region c.profile))
                w.secrets in
            let w₁ : World S = record w { secrets = s } in
            chain_failed (IsUntouchedIn w) (applied, w₁) _ (λ _. (refl, refl))
              λ q _. saved-failed S A p S.hosts_file _ w.files out_hosts

    save-failed :
        (b : Bool) (creds : Credentials) (storage : String) (f : ini.File) (w : World S)
        → (b && (S.config_file == p)) ≡ false
        → let saved_all =
            chain
              (on_files S (write_ovh_conf S f) w)
              λ _ w₁. if b then write_hosts_creds S creds storage w₁ else (ok tt, w₁) in
          saved_all.0 ≢ ok tt → IsUntouchedIn w saved_all.1
    save-failed true creds storage f w h =
        let kept = write_conf-other f w h in
        chain_failed (IsUntouchedIn w) (on_files S (write_ovh_conf S f) w) _ (λ _. kept)
          λ _ _ ne.
            IsUntouched-trans S A p w.files _ _ kept (write_hosts_creds-failed creds storage _ ne)
    save-failed false creds storage f w h =
        chain_failed (IsUntouchedIn w) (on_files S (write_ovh_conf S f) w) _
          (λ fails. write_conf-failed f w (fails tt)) λ _ _ ne. absurd (ne refl)

    store_checked-failed :
        (creds : Credentials) (w : World S)
        → (has_session creds && (S.config_file == p)) ≡ false
        → (store_checked S creds w).0 ≢ ok tt
        → IsUntouchedIn w (store_checked S creds w).1
    unfolding store_checked on_ring
    store_checked-failed creds w h =
        chain_failed (IsUntouchedIn w) (load_default_conf S w, w) _ (λ _. (refl, refl))
          λ found _.
            let f = file_or_empty S found in
            let storage = storage_mode S (some f) in
            let step = on_ring S (apply_creds S (touch_storage S f) creds storage) w in
            chain_failed (IsUntouchedIn w) step _ (λ _. (refl, refl))
              λ f' _. save-failed (has_session creds) creds storage f' step.1 h

    -- A store that fails, wherever it fails, leaves every file as it was: ovh.conf too, unless there
    -- is a session to be stored after it, which may be what failed. The file may not lie among the
    -- directories above ovh.conf and hosts.yml, which a store creates.
    pub store_credentials-failed :
        (region profile : String) (creds : Credentials) (w : World S)
        → (has_session creds && (S.config_file == p)) ≡ false
        → (store_credentials S region profile creds w).0 ≢ ok tt
        → IsUntouchedIn w (store_credentials S region profile creds w).1
    unfolding store_credentials has_session
    store_credentials-failed region profile creds w h =
        let Keeps : Result (Unit {0}) × World S → Type 0 = λ x. x.0 ≢ ok tt → IsUntouchedIn w x.1 in
        if_property Keeps (region == "") _ _ (λ _. (refl, refl))
          (if_property Keeps (is_zero creds) _ _ (λ _. (refl, refl))
            (if_property Keeps (not (creds.region == region)) _ _ (λ _. (refl, refl))
              (store_checked-failed (record creds { profile = or_default profile }) w h)))

    rewrite_hosts-other :
        (region profile : String) (loaded : Option HostsFile) (w : World S)
        → (S.hosts_file == p) ≡ false
        → IsUntouchedIn w (rewrite_hosts S w region profile loaded).1
    unfolding rewrite_hosts write_hosts_yml
    rewrite_hosts-other region profile none w apart = (refl, refl)
    rewrite_hosts-other region profile (some hf) w apart = by_region (lookup region hf.hosts) refl
      where
        by_region :
            (o : Option HostRegion)
            → lookup region hf.hosts ≡ o
            → IsUntouchedIn w (rewrite_hosts S w region profile (some hf)).1
        by_region none e = rw (rewrite_hosts, e) (refl, refl)
        by_region (some r) e =
            rw (rewrite_hosts, e)
              (saved-other S A p S.hosts_file
                (wrap_err "auth: marshal hosts.yml: %w" []
                  (yaml.marshal (without_profile S hf region profile r)))
                w.files out_hosts apart)

    delete_hosts_creds-other :
        (region profile : String) (w : World S)
        → (S.hosts_file == p) ≡ false
        → IsUntouchedIn w (delete_hosts_creds S region profile w).1
    unfolding delete_hosts_creds
    delete_hosts_creds-other region profile w apart =
        chain_kept (IsUntouchedIn w) (load_hosts_yml S w.files, _) _ (refl, refl)
          λ loaded _. rewrite_hosts-other region profile loaded _ apart

    delete_section-failed :
        (region : String) (found : Option (ini.File × String)) (w : World S)
        → (delete_section S region found w).0 ≢ ok tt
        → IsUntouchedIn w (delete_section S region found w).1
    unfolding delete_section
    delete_section-failed region none w = λ ne. absurd (ne refl)
    delete_section-failed region (some (f, path)) w =
        let Keeps : Result (Unit {0}) × World S → Type 0 = λ x. x.0 ≢ ok tt → IsUntouchedIn w x.1 in
        if_property Keeps (not (ini.has_section f region)) _ _ (λ _. (refl, refl))
          (write_conf-failed (ini.delete_section f region) w)

    -- A delete that fails, wherever it fails, leaves every file but hosts.yml as it was, so that the
    -- region's section still stands in ovh.conf.
    pub delete_credentials-failed :
        (region profile : String) (w : World S)
        → (S.hosts_file == p) ≡ false
        → (delete_credentials S region profile w).0 ≢ ok tt
        → IsUntouchedIn w (delete_credentials S region profile w).1
    unfolding delete_credentials
    delete_credentials-failed region profile w apart =
        let Keeps : Result (Unit {0}) × World S → Type 0 = λ x. x.0 ≢ ok tt → IsUntouchedIn w x.1 in
        if_property Keeps (region == "") _ _ (λ _. (refl, refl))
          (let w₁ : World S = record w {
            secrets = delete_secrets S region (or_default profile) w.secrets;
          } in
            let kept = delete_hosts_creds-other region (or_default profile) w₁ apart in
            chain_failed (IsUntouchedIn w) (delete_hosts_creds S region (or_default profile) w₁) _
              (λ _. kept)
              λ _ _.
                chain_failed (IsUntouchedIn w) (load_default_conf S _, _) _ (λ _. kept)
                  λ found _ ne.
                    IsUntouched-trans S A p w.files _ _ kept
                      (delete_section-failed region found _ ne))
