-- ===== src/Auth/Conf/Files.antt =====
-- Configuration files on disk: what a write leaves, and which file a later search finds.
use ovh_cli.Prelude.{ℕ, String, true, false, ◌≡◌, refl, arith, ◌==◌, ◌⊎◌, inl, inr}
use ovh_cli.Prelude.{Option-cases, List, none, some, eq_refl, ◌∙◌, ap, ◌∷◌, []}
use ovh_cli.Errors.{ok, wrap_err, wrap_err-eq-ok}
use ovh_cli.Effect.{chain-eq-ok}
use ovh_cli.Platform.Disk.{Stat, missing, stat_failed, dir, file, bytes, IsAtomic}
use ovh_cli.Platform.Ini.{IsLawful}
use ovh_cli.Auth.World.{Services, World}
use ovh_cli.Auth.Conf.{
  make_config_dir, write_private, write_ovh_conf, load_default_conf, find_conf, conf_paths,
}

-- After the write, the path holds the bytes; a file that was there keeps its mode, and other paths
-- are as before.
pub record Placed (S : Services) (path : String) (b : S.disk.Bytes) (s s' : S.disk.State)
    : Type 0 where
  pub read_self : S.disk.read_file s' path ≡ bytes b
  pub stat_new : S.disk.stat s path ≡ missing → S.disk.stat s' path ≡ file (S.disk.umasked 0o600)
  pub stat_old : (k : ℕ) → S.disk.stat s path ≡ file k → S.disk.stat s' path ≡ file k
  pub read_other :
      (q : String)
      → S.disk.is_within q (S.dir_of path) ≡ false
      → (path == q) ≡ false
      → S.disk.read_file s' q ≡ S.disk.read_file s q
  pub stat_other :
      (q : String)
      → S.disk.is_within q (S.dir_of path) ≡ false
      → (path == q) ≡ false
      → S.disk.stat s' q ≡ S.disk.stat s q

module _ (S : Services) (A : IsAtomic S.disk) where
  open S use {disk, ini}

  module _ (path : String) (apart : disk.is_within path (S.dir_of path) ≡ false) where
    made-eq :
        (s s₁ : disk.State)
        → make_config_dir S path s ≡ (ok tt, s₁)
        → s₁ ≡ (disk.mkdir_all s (S.dir_of path) 0o700).1
    unfolding make_config_dir
    made-eq s s₁ h = ground arith

    written-eq :
        (b : disk.Bytes) (s₁ s₂ : disk.State)
        → write_private S path b s₁ ≡ (ok tt, s₂)
        → ((disk.write_file s₁ path b 0o600).0 ≡ none) × (s₂ ≡ (disk.write_file s₁ path b 0o600).1)
    unfolding write_private
    written-eq b s₁ s₂ h = ground arith

    -- Creating the directory and writing the file, both with success.
    pub Placed-write :
        (b : disk.Bytes) (s s₁ s₂ : disk.State)
        → make_config_dir S path s ≡ (ok tt, s₁)
        → write_private S path b s₁ ≡ (ok tt, s₂)
        → Placed S path b s s₂
    Placed-write b s s₁ s₂ h k =
        let e₁ = made-eq s s₁ h in
        let (w, e₂) = written-eq b s₁ s₂ k in
        record {
          read_self = rw e₂ (A.read-write s₁ path path b 0o600 w ∙ rw eq_refl);
          stat_new = λ m. rw e₂ (
              A.stat-write_new s₁ path b 0o600 w
                (rw e₁ (A.stat-mkdir s (S.dir_of path) path 0o700 apart ∙ m)));
          stat_old = λ j m. rw e₂ (
              A.stat-write_old s₁ path b 0o600 j w
                (rw e₁ (A.stat-mkdir s (S.dir_of path) path 0o700 apart ∙ m)));
          read_other = λ q within ne. rw e₂ (
              A.read-write s₁ path q b 0o600 w
              ∙ rw (ne, e₁) (A.read-mkdir s (S.dir_of path) q 0o700 within));
          stat_other = λ q within ne. rw e₂ (
              A.stat-write_ne s₁ path q b 0o600 ne
              ∙ rw e₁ (A.stat-mkdir s (S.dir_of path) q 0o700 within));
        }

-- The file is there, or nothing is.
abbrev pub IsFileOrMissing : Stat → Type 0
IsFileOrMissing missing = Unit
IsFileOrMissing (stat_failed e) = ⊥
IsFileOrMissing (dir m) = ⊥
IsFileOrMissing (file m) = Unit

-- No configuration file stands before the canonical one on the search path, and the paths are
-- different ones, outside the directories above the canonical file.
pub record IsCanonical (S : Services) (w : World S) : Type 0 where
  pub local_missing : S.disk.stat w.files "ovh.conf" ≡ missing
  pub home_missing :
      (h : String) → w.home ≡ some h → S.disk.stat w.files (S.join h ".ovh.conf") ≡ missing
  pub canonical : IsFileOrMissing (S.disk.stat w.files S.config_file)
  pub config_apart : S.disk.is_within S.config_file (S.dir_of S.config_file) ≡ false
  pub local_apart : S.disk.is_within "ovh.conf" (S.dir_of S.config_file) ≡ false
  pub local_ne : (S.config_file == "ovh.conf") ≡ false
  pub home_apart :
      (h : String)
      → w.home ≡ some h
      → S.disk.is_within (S.join h ".ovh.conf") (S.dir_of S.config_file) ≡ false
  pub home_ne : (h : String) → w.home ≡ some h → (S.config_file == S.join h ".ovh.conf") ≡ false

module _ (S : Services) where
  open S use {disk, ini}

  find_conf-here :
      (w : World S) (rest : List String) (k : ℕ) (b : disk.Bytes) (f : ini.File)
      → disk.stat w.files S.config_file ≡ file k
      → disk.read_file w.files S.config_file ≡ bytes b
      → ini.parse b ≡ ok f
      → find_conf S w (S.config_file ∷ rest) ≡ ok (some (f, S.config_file))
  unfolding find_conf
  find_conf-here w rest k b f hs hr hp = ground arith

  find_conf-skip :
      (w : World S) (p : String) (rest : List String)
      → disk.stat w.files p ≡ missing
      → find_conf S w (p ∷ rest) ≡ find_conf S w rest
  unfolding find_conf
  find_conf-skip w p rest h = ground arith

  pub paths_none :
      (w : World S)
      → w.home ≡ none
      → conf_paths S w ≡ "ovh.conf" ∷ S.config_file ∷ "/etc/ovh.conf" ∷ []
  unfolding conf_paths
  paths_none w h = rw h

  pub paths_some :
      (w : World S) (h : String)
      → w.home ≡ some h
      → conf_paths S w ≡ "ovh.conf" ∷ S.join h ".ovh.conf" ∷ S.config_file ∷ "/etc/ovh.conf" ∷ []
  unfolding conf_paths
  paths_some w h e = rw e

  pub home_cases : (w : World S) → (w.home ≡ none) ⊎ ((h : String) × (w.home ≡ some h))
  home_cases w = Option-cases w.home

  -- Where nothing stands before it, the canonical file is what the search finds.
  pub load_default_conf-canonical :
      (w : World S) (k : ℕ) (b : disk.Bytes) (f : ini.File)
      → disk.stat w.files "ovh.conf" ≡ missing
      → ((h : String) → w.home ≡ some h → disk.stat w.files (S.join h ".ovh.conf") ≡ missing)
      → disk.stat w.files S.config_file ≡ file k
      → disk.read_file w.files S.config_file ≡ bytes b
      → ini.parse b ≡ ok f
      → load_default_conf S w ≡ ok (some (f, S.config_file))
  unfolding load_default_conf
  load_default_conf-canonical w k b f hl hh hs hr hp = elim (home_cases w) [
    | inl e ↦ rw (paths_none w e) (find_conf-skip w _ _ hl ∙ find_conf-here w _ k b f hs hr hp)
    | inr (h, e) ↦ rw (paths_some w h e) (
        find_conf-skip w _ _ hl ∙ find_conf-skip w _ _ (hh h e) ∙ find_conf-here w _ k b f hs hr hp)
  ]

module _ (S : Services) (A : IsAtomic S.disk) (L : IsLawful S.ini) where
  open S use {disk, ini}

  pub write_ovh_conf-Placed :
      disk.is_within S.config_file (S.dir_of S.config_file) ≡ false
      → (f : ini.File) (s s' : disk.State) → write_ovh_conf S f s ≡ (ok tt, s')
      → (b : disk.Bytes) × (ini.write_to f ≡ ok b) × Placed S S.config_file b s s'
  unfolding write_ovh_conf
  write_ovh_conf-Placed apart f s s' h =
      let (_, s₁, h₁, r₁) = chain-eq-ok (make_config_dir S S.config_file s) _ h in
      let (b, s₂, h₂, r₂) =
        chain-eq-ok (wrap_err "auth: marshal ini: %w" [] (ini.write_to f), s₁) _ r₁ in
      let e = wrap_err-eq-ok "auth: marshal ini: %w" [] (ini.write_to f) b (ap (λ r. r.0) h₂) in
      (b, e, Placed-write S A S.config_file apart b s s₁ s' h₁ (rw (ap (λ r. r.1) h₂) r₂))

  pub stat_after :
      (t : Stat) (b : disk.Bytes) (s s' : disk.State)
      → Placed S S.config_file b s s'
      → disk.stat s S.config_file ≡ t
      → IsFileOrMissing t
      → (k : ℕ) × (disk.stat s' S.config_file ≡ file k)
  stat_after missing b s s' p e h = (disk.umasked 0o600, p.stat_new e)
  stat_after (stat_failed x) b s s' p e h = absurd h
  stat_after (dir k) b s s' p e h = absurd h
  stat_after (file k) b s s' p e h = (k, p.stat_old k e)

  -- After a write of the canonical file the search finds what was written, if the library keeps it.
  pub load_default_conf-write :
      (w : World S)
      → IsCanonical S w
      → (f : ini.File) (s' : disk.State) → ini.is_kept f ≡ true
      → write_ovh_conf S f w.files ≡ (ok tt, s')
      → load_default_conf S (record w { files = s' }) ≡ ok (some (f, S.config_file))
  load_default_conf-write w C f s' kept h =
      let (b, done, p) = write_ovh_conf-Placed C.config_apart f w.files s' h in
      let (k, now) = stat_after _ b w.files s' p refl C.canonical in
      load_default_conf-canonical S (record w { files = s' }) k b f
        (p.stat_other _ C.local_apart C.local_ne ∙ C.local_missing)
        (λ j e. p.stat_other _ (C.home_apart j e) (C.home_ne j e) ∙ C.home_missing j e) now
        p.read_self (L.parse-write f b kept done)

pub IsCanonical-secrets :
    (S : Services) (w : World S) (s : S.ring.State)
    → IsCanonical S w
    → IsCanonical S (record w { secrets = s })
IsCanonical-secrets S w s C = record {
  local_missing = C.local_missing;
  home_missing = C.home_missing;
  canonical = C.canonical;
  config_apart = C.config_apart;
  local_apart = C.local_apart;
  local_ne = C.local_ne;
  home_apart = C.home_apart;
  home_ne = C.home_ne;
}
