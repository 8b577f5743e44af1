-- ===== src/Auth/HostsFile/Sessions/Unchanged.antt =====
-- Writes that fail leave hosts.yml as it was.
use ovh_cli.Prelude.{String, false, Option, none, some, [], ◌≡◌, ◌≢◌, refl, ◌∙◌, sym, subst, arith}
use ovh_cli.Prelude.Dict.{lookup}
use ovh_cli.Errors.{Error, Result, ok, err, panic, wrap_err}
use ovh_cli.Effect.{chain}
use ovh_cli.Platform.Disk.{IsAtomic}
use ovh_cli.Auth.Credentials.{Credentials}
use ovh_cli.Auth.Hosts.{HostProfile, HostRegion, HostsFile}
use ovh_cli.Auth.Keyring.{keyring_delete}
use ovh_cli.Auth.World.{Services, World}
use ovh_cli.Auth.Conf.{make_config_dir, write_private}
use ovh_cli.Auth.HostsFile.Sessions.{Op, put, drop, exec}
use ovh_cli.Auth.HostsFile.{
  load_hosts_yml, read_hosts, write_hosts_yml, find_profile, with_profile, without_profile,
  hosts_or_new, profile_or_zero, apply_tokens, write_hosts_creds, delete_hosts_creds, rewrite_hosts,
}

module _ (S : Services) (A : IsAtomic S.disk)
    (apart : S.disk.is_within S.hosts_file (S.dir_of S.hosts_file) ≡ false) where
  open S use {disk, ring, yaml}

  -- hosts.yml is on the one disk as on the other.
  abbrev pub IsSame : disk.State → disk.State → Type 0
  IsSame s s' =
      (disk.stat s' S.hosts_file ≡ disk.stat s S.hosts_file)
      × (disk.read_file s' S.hosts_file ≡ disk.read_file s S.hosts_file)

  pub load_hosts_yml-IsSame :
      (s s' : disk.State) → IsSame s s' → load_hosts_yml S s' ≡ load_hosts_yml S s
  unfolding load_hosts_yml read_hosts
  load_hosts_yml-IsSame s s' (h, k) = ground (arith, h, k)

  make_config_dir-IsSame :
      (s s₁ : disk.State) (r : Result (Unit {0}))
      → make_config_dir S S.hosts_file s ≡ (r, s₁)
      → IsSame s s₁
  unfolding make_config_dir
  make_config_dir-IsSame s s₁ r h =
      let e : (disk.mkdir_all s (S.dir_of S.hosts_file) 0o700).1 ≡ s₁ = ground arith in
      subst (IsSame s) e (
        A.stat-mkdir s (S.dir_of S.hosts_file) S.hosts_file 0o700 apart,
        A.read-mkdir s (S.dir_of S.hosts_file) S.hosts_file 0o700 apart,
      )

  write_private_failed :
      (b : disk.Bytes) (s s' : disk.State) (r : Result (Unit {0}))
      → write_private S S.hosts_file b s ≡ (r, s')
      → r ≢ ok tt
      → s' ≡ s
  unfolding write_private
  write_private_failed b s s' r h ne = by_error (disk.write_file s S.hosts_file b 0o600).0 refl
    where
      by_error : (o : Option Error) → (disk.write_file s S.hosts_file b 0o600).0 ≡ o → s' ≡ s
      by_error none e = absurd (ne (ground arith))
      by_error (some x) e =
          let q : (disk.write_file s S.hosts_file b 0o600).1 ≡ s' = ground arith in
          sym q ∙ A.write_failed s S.hosts_file b 0o600 x e

  -- A write that fails leaves hosts.yml as it was.
  write_hosts_yml-IsSame :
      (f : HostsFile) (s s' : disk.State) (r : Result (Unit {0}))
      → write_hosts_yml S f s ≡ (r, s')
      → r ≢ ok tt
      → IsSame s s'
  unfolding write_hosts_yml
  write_hosts_yml-IsSame f s s' r h ne = by_dir (make_config_dir S S.hosts_file s) refl h
    where
      by_body :
          (s₁ : disk.State) (o : Result disk.Bytes)
          → IsSame s s₁
          → chain (o, s₁) (write_private S S.hosts_file) ≡ (r, s')
          → IsSame s s'
      by_body s₁ (ok b) same k = subst (IsSame s) (sym (write_private_failed b s₁ s' r k ne)) same
      by_body s₁ (err e) same k = subst (IsSame s) (cc) same
      by_body s₁ (panic m) same k = subst (IsSame s) (cc) same

      by_dir :
          (p : Result (Unit {0}) × disk.State)
          → make_config_dir S S.hosts_file s ≡ p
          → chain p (λ _ s₁.
            chain
              (wrap_err "auth: marshal hosts.yml: %w" [] (yaml.marshal f), s₁)
              (write_private S S.hosts_file))
            ≡ (r, s')
          → IsSame s s'
      by_dir (ok _, s₁) e k =
          by_body s₁ (wrap_err "auth: marshal hosts.yml: %w" [] (yaml.marshal f))
            (make_config_dir-IsSame s s₁ _ e) k
      by_dir (err x, s₁) e k = subst (IsSame s) (cc) (make_config_dir-IsSame s s₁ _ e)
      by_dir (panic m, s₁) e k = subst (IsSame s) (cc) (make_config_dir-IsSame s s₁ _ e)

  -- The rest of a write of a session, where it fails.
  chain_tokens-IsSame :
      (p : Result HostProfile × ring.State) (w w' : World S) (f : HostProfile → HostsFile)
      (r : Result (Unit {0}))
      → chain
          (p.0, record w { secrets = p.1 })
          (λ p (w₁ : World S).
            let (done, files) = write_hosts_yml S (f p) w₁.files in
            (done, record w₁ { files = files }))
        ≡ (r, w')
      → r ≢ ok tt
      → IsSame w.files w'.files
  chain_tokens-IsSame (ok p, s) w w' f r h ne =
      let written = write_hosts_yml S (f p) w.files in
      write_hosts_yml-IsSame (f p) w.files w'.files r (ground arith) ne
  chain_tokens-IsSame (err e, s) w w' f r h ne =
      let q : w.files ≡ w'.files = cc in subst (IsSame w.files) q (refl, refl)
  chain_tokens-IsSame (panic m, s) w w' f r h ne =
      let q : w.files ≡ w'.files = cc in subst (IsSame w.files) q (refl, refl)

  write_hosts_creds-IsSame :
      (c : Credentials) (storage : String) (loaded : Option HostsFile) (w w' : World S)
      (r : Result (Unit {0}))
      → load_hosts_yml S w.files ≡ ok loaded
      → write_hosts_creds S c storage w ≡ (r, w')
      → r ≢ ok tt
      → IsSame w.files w'.files
  unfolding write_hosts_creds
  write_hosts_creds-IsSame c storage loaded w w' r load h ne =
      chain_tokens-IsSame
        (apply_tokens S c storage
          (profile_or_zero (find_profile (hosts_or_new S loaded) c.region c.profile)) w.secrets)
        w w' (λ p. with_profile S (hosts_or_new S loaded) c (record p { expiry = c.expiry })) r
        (rw load at h) ne

  rewrite_hosts-IsSame :
      (gone gone_profile : String) (loaded : Option HostsFile) (w w' : World S)
      (r : Result (Unit {0}))
      → rewrite_hosts S w gone gone_profile loaded ≡ (r, w')
      → r ≢ ok tt
      → IsSame w.files w'.files
  unfolding rewrite_hosts
  rewrite_hosts-IsSame gone gone_profile none w w' r h ne = absurd (ne (ground arith))
  rewrite_hosts-IsSame gone gone_profile (some hf) w w' r h ne =
      by_region (lookup gone hf.hosts) refl
    where
      by_region : (o : Option HostRegion) → lookup gone hf.hosts ≡ o → IsSame w.files w'.files
      by_region none e = absurd (ne (ground arith))
      by_region (some q) e =
          let written = write_hosts_yml S (without_profile S hf gone gone_profile q) w.files in
          write_hosts_yml-IsSame (without_profile S hf gone gone_profile q) w.files w'.files r
            (ground arith) ne

  -- An operation that fails leaves hosts.yml as it was, if it could be read.
  pub exec-IsSame :
      (op : Op) (loaded : Option HostsFile) (w w' : World S) (r : Result (Unit {0}))
      → load_hosts_yml S w.files ≡ ok loaded
      → exec S op w ≡ (r, w')
      → r ≢ ok tt
      → IsSame w.files w'.files
  unfolding delete_hosts_creds
  exec-IsSame (put c storage) loaded w w' r load h ne =
      write_hosts_creds-IsSame c storage loaded w w' r load h ne
  exec-IsSame (drop gone gone_profile) loaded w w' r load h ne =
      let s₁ = (keyring_delete ring gone gone_profile "access_token" w.secrets).1 in
      let s₂ = (keyring_delete ring gone gone_profile "refresh_token" s₁).1 in
      let w₁ : World S = record w { secrets = s₂ } in
      rewrite_hosts-IsSame gone gone_profile loaded w₁ w' r (rw load at h) ne
