-- ===== src/Auth/HostsFile/Files.antt =====
-- hosts.yml on disk: what a write leaves for the next load.
use Prim.Native.Nat.{bit_and}
use ovh_cli.Prelude.{ℕ, String, false, Option, some, ◌≡◌, refl, sym, subst, arith, ◌==◌, eq_refl}
use ovh_cli.Prelude.Dict.{lookup-insert}
use ovh_cli.Errors.{Result, ok, err, panic, wrap_err, wrap_err-eq-ok}
use ovh_cli.Effect.{chain, chain-eq-ok, chain_lift-eq-ok}
use ovh_cli.Platform.Disk.{Stat, missing, stat_failed, dir, file, IsAtomic}
use ovh_cli.Platform.Codec.{IsFaithful}
use ovh_cli.Prelude.{[]}
use ovh_cli.Auth.Credentials.{Credentials}
use ovh_cli.Auth.Hosts.{HostProfile, HostsFile}
use ovh_cli.Auth.World.{Services, World}
use ovh_cli.Auth.Conf.{make_config_dir}
use ovh_cli.Auth.Conf.Files.{Placed, Placed-write, IsFileOrMissing}
use ovh_cli.Auth.HostsFile.{
  find_profile, load_hosts_yml, read_hosts, write_hosts_yml, with_profile, hosts_or_new,
  profile_or_zero, apply_tokens, write_hosts_creds,
}

-- The entry that was put in is found.
pub find_profile-with_profile :
    (S : Services) (hf : HostsFile) (c : Credentials) (p : HostProfile)
    → find_profile (with_profile S hf c p) c.region c.profile ≡ some p
unfolding find_profile with_profile
find_profile-with_profile S hf c p =
    rw lookup-insert (rw eq_refl (rw lookup-insert (rw eq_refl refl)))

module _ (S : Services) (A : IsAtomic S.disk) (Y : IsFaithful S.yaml)
    (apart : S.disk.is_within S.hosts_file (S.dir_of S.hosts_file) ≡ false) where
  open S use {disk, ring, yaml}

  write_hosts_yml-Placed :
      (f : HostsFile) (s s' : disk.State)
      → write_hosts_yml S f s ≡ (ok tt, s')
      → (b : disk.Bytes) × (yaml.unmarshal b ≡ ok f) × Placed S S.hosts_file b s s'
  unfolding write_hosts_yml
  write_hosts_yml-Placed f s s' h =
      let (_, s₁, h₁, r₁) = chain-eq-ok (make_config_dir S S.hosts_file s) _ h in
      let (b, h₂, r₂) =
        chain_lift-eq-ok (wrap_err "auth: marshal hosts.yml: %w" [] (yaml.marshal f)) s₁ _ r₁ in
      (
        b,
        Y.unmarshal-marshal f b (wrap_err-eq-ok _ _ _ b h₂),
        Placed-write S A S.hosts_file apart b s s₁ s' h₁ r₂,
      )

  -- A file that a load accepted, or that is not there, is private after the write.
  private_after :
      (t : Stat) (loaded : Option HostsFile) (b : disk.Bytes) (s s' : disk.State)
      → Placed S S.hosts_file b s s'
      → disk.stat s S.hosts_file ≡ t
      → IsFileOrMissing t
      → load_hosts_yml S s ≡ ok loaded
      → (k : ℕ) × (disk.stat s' S.hosts_file ≡ file k) × (bit_and k 0o077 ≡ 0)
  unfolding load_hosts_yml
  private_after missing l b s s' p e h r =
      (disk.umasked 0o600, p.stat_new e, A.umasked_private 0o600 refl)
  private_after (stat_failed x) l b s s' p e h r = absurd h
  private_after (dir k) l b s s' p e h r = absurd h
  private_after (file k) l b s s' p e h r = (k, p.stat_old k e, ground arith)

  -- After a write the load gives what was written.
  pub load_hosts_yml-write :
      (loaded : Option HostsFile) (f : HostsFile) (s s' : disk.State)
      → IsFileOrMissing (disk.stat s S.hosts_file)
      → load_hosts_yml S s ≡ ok loaded
      → write_hosts_yml S f s ≡ (ok tt, s')
      → load_hosts_yml S s' ≡ ok (some f)
  unfolding load_hosts_yml read_hosts
  load_hosts_yml-write loaded f s s' regular l h =
      let (b, decoded, p) = write_hosts_yml-Placed f s s' h in
      let (k, now, private) = private_after _ loaded b s s' p refl regular l in
      let found = p.read_self in ground arith

  -- A file that a write replaced is a file.
  pub write_hosts_yml-IsFileOrMissing :
      (loaded : Option HostsFile) (f : HostsFile) (s s' : disk.State)
      → IsFileOrMissing (disk.stat s S.hosts_file)
      → load_hosts_yml S s ≡ ok loaded
      → write_hosts_yml S f s ≡ (ok tt, s')
      → IsFileOrMissing (disk.stat s' S.hosts_file)
  write_hosts_yml-IsFileOrMissing loaded f s s' regular l h =
      let (b, _, p) = write_hosts_yml-Placed f s s' h in
      let (k, now, _) = private_after _ loaded b s s' p refl regular l in
      subst IsFileOrMissing (sym now) tt

  -- Paths outside the directory of hosts.yml are as before.
  pub write_hosts_yml-Elsewhere :
      (f : HostsFile) (s s' : disk.State)
      → write_hosts_yml S f s ≡ (ok tt, s')
      → (q : String) → disk.is_within q (S.dir_of S.hosts_file) ≡ false
      → (S.hosts_file == q) ≡ false
      → (disk.stat s' q ≡ disk.stat s q) × (disk.read_file s' q ≡ disk.read_file s q)
  write_hosts_yml-Elsewhere f s s' h q within ne =
      let (b, decoded, p) = write_hosts_yml-Placed f s s' h in
      (p.stat_other q within ne, p.read_other q within ne)

module _ (S : Services) where
  open S use {disk, ring}

  -- The steps of writing a session.
  pub record SessionWritten (c : Credentials) (storage : String) (w w' : World S) : Type 0 where
    pub loaded : Option HostsFile
    pub load : load_hosts_yml S w.files ≡ ok loaded
    pub profile : HostProfile
    pub secrets : ring.State
    pub applied :
        apply_tokens S c storage
          (profile_or_zero (find_profile (hosts_or_new S loaded) c.region c.profile))
          w.secrets
        ≡ (ok profile, secrets)
    pub files : disk.State
    pub saved :
        write_hosts_yml S
          (with_profile S (hosts_or_new S loaded) c (record profile { expiry = c.expiry }))
          w.files
        ≡ (ok tt, files)
    pub result : w' ≡ record w { secrets = secrets; files = files }

  chain_applied-eq-ok :
      (r : Result HostProfile × ring.State) (w : World S) (f : HostProfile → HostsFile)
      {w' : World S}
      → chain
          (r.0, record w { secrets = r.1 })
          (λ p (w₁ : World S).
            let (done, files) = write_hosts_yml S (f p) w₁.files in
            (done, record w₁ { files = files }))
        ≡ (ok tt, w')
      → (p : HostProfile) × (s : ring.State) × (files : disk.State) × (r ≡ (ok p, s))
        × (write_hosts_yml S (f p) w.files ≡ (ok tt, files))
        × (w' ≡ record w { secrets = s; files = files })
  chain_applied-eq-ok (ok p, s) w f h =
      let written = write_hosts_yml S (f p) w.files in
      (p, s, (write_hosts_yml S (f p) w.files).1, refl, ground arith, ground arith)
  chain_applied-eq-ok (err e, s) w f h = cc
  chain_applied-eq-ok (panic m, s) w f h = cc

  pub write_hosts_creds-SessionWritten :
      (c : Credentials) (storage : String) (w w' : World S)
      → write_hosts_creds S c storage w ≡ (ok tt, w')
      → SessionWritten c storage w w'
  unfolding write_hosts_creds
  write_hosts_creds-SessionWritten c storage w w' h =
      let (loaded, h₀, r₀) = chain_lift-eq-ok (load_hosts_yml S w.files) w _ h in
      let (p, s, files, applied, saved, e) =
        chain_applied-eq-ok
          (apply_tokens S c storage
            (profile_or_zero (find_profile (hosts_or_new S loaded) c.region c.profile)) w.secrets)
          w (λ p. with_profile S (hosts_or_new S loaded) c (record p { expiry = c.expiry })) r₀ in
      record {
        loaded = loaded;
        load = h₀;
        profile = p;
        secrets = s;
        applied = applied;
        files = files;
        saved = saved;
        result = e;
      }
