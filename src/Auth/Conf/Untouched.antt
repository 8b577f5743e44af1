-- ===== src/Auth/Conf/Untouched.antt =====
-- Which writes leave a file as it was.
use ovh_cli.Prelude.{String, false, Option, none, some, ◌≡◌, ◌≢◌, refl, ◌∙◌, ◌==◌}
use ovh_cli.Errors.{Error, Result, ok}
use ovh_cli.Effect.{Effect, lift, chain_kept, chain_failed, ◌>>=◌ as ◌⟫=◌}
use ovh_cli.Platform.Disk.{IsAtomic}
use ovh_cli.Auth.World.{Services}
use ovh_cli.Auth.Conf.{make_config_dir, write_private, made, written}

module _ (S : Services) (A : IsAtomic S.disk) (p : String) where
  open S use {disk, ring, ini, yaml}

  -- The path is on the one disk as on the other.
  abbrev pub IsUntouched : disk.State → disk.State → Type 0
  IsUntouched s s' = (disk.stat s' p ≡ disk.stat s p) × (disk.read_file s' p ≡ disk.read_file s p)

  pub IsUntouched-trans :
      (s s₁ s₂ : disk.State) → IsUntouched s s₁ → IsUntouched s₁ s₂ → IsUntouched s s₂
  IsUntouched-trans s s₁ s₂ (h, k) (h', k') = (h' ∙ h, k' ∙ k)

  -- The shape of `writeOvhConf` and `writeHostsYml`.
  abbrev saved : String → Result disk.Bytes → Effect disk.State (Unit {0})
  saved path r = make_config_dir S path ⟫= λ _. lift r ⟫= λ b. write_private S path b

  make_config_dir-IsUntouched :
      (path : String) (s : disk.State)
      → disk.is_within p (S.dir_of path) ≡ false
      → IsUntouched s (make_config_dir S path s).1
  unfolding make_config_dir
  make_config_dir-IsUntouched path s out =
      by_result (disk.mkdir_all s (S.dir_of path) 0o700)
        (A.stat-mkdir s (S.dir_of path) p 0o700 out, A.read-mkdir s (S.dir_of path) p 0o700 out)
    where
      by_result : (x : Option Error × disk.State) → IsUntouched s x.1 → IsUntouched s (made S x).1
      by_result (none, s₁) h = h
      by_result (some e, s₁) h = h

  write_private-failed :
      (path : String) (b : disk.Bytes) (s : disk.State)
      → (write_private S path b s).0 ≢ ok tt
      → IsUntouched s (write_private S path b s).1
  unfolding write_private
  write_private-failed path b s =
      by_result (disk.write_file s path b 0o600) (A.write_failed s path b 0o600)
    where
      by_result :
          (x : Option Error × disk.State)
          → ((e : Error) → x.0 ≡ some e → x.1 ≡ s)
          → (written S x).0 ≢ ok tt
          → IsUntouched s (written S x).1
      by_result (none, s₁) f ne = absurd (ne refl)
      by_result (some e, s₁) f ne = rw (f e refl) (refl, refl)

  write_private-other :
      (path : String) (b : disk.Bytes) (s : disk.State)
      → (path == p) ≡ false
      → IsUntouched s (write_private S path b s).1
  unfolding write_private
  write_private-other path b s apart =
      by_result (disk.write_file s path b 0o600) (A.write_failed s path b 0o600) λ w.
        (A.stat-write_ne s path p b 0o600 apart, A.read-write s path p b 0o600 w ∙ rw apart refl)
    where
      by_result :
          (x : Option Error × disk.State)
          → ((e : Error) → x.0 ≡ some e → x.1 ≡ s)
          → (x.0 ≡ none → IsUntouched s x.1)
          → IsUntouched s (written S x).1
      by_result (none, s₁) f k = k refl
      by_result (some e, s₁) f k = rw (f e refl) (refl, refl)

  pub saved-failed :
      (path : String) (r : Result disk.Bytes) (s : disk.State)
      → disk.is_within p (S.dir_of path) ≡ false
      → (saved path r s).0 ≢ ok tt
      → IsUntouched s (saved path r s).1
  saved-failed path r s out =
      let kept = make_config_dir-IsUntouched path s out in
      chain_failed (IsUntouched s) (make_config_dir S path s) _ (λ _. kept)
        λ _ _.
          chain_failed (IsUntouched s) (r, (make_config_dir S path s).1) _ (λ _. kept)
            λ b _ ne. IsUntouched-trans s _ _ kept (write_private-failed path b _ ne)

  pub saved-other :
      (path : String) (r : Result disk.Bytes) (s : disk.State)
      → disk.is_within p (S.dir_of path) ≡ false
      → (path == p) ≡ false
      → IsUntouched s (saved path r s).1
  saved-other path r s out apart =
      let kept = make_config_dir-IsUntouched path s out in
      chain_kept (IsUntouched s) (make_config_dir S path s) _ kept λ _ _.
        chain_kept (IsUntouched s) (r, (make_config_dir S path s).1) _ kept
          λ b _. IsUntouched-trans s _ _ kept (write_private-other path b _ apart)
