-- ===== src/Tests/Memory/Disk.antt =====
-- A disk as a map from paths to entries. A write to a directory or to the locked path fails.
use ovh_cli.Prelude.{String, ℕ, Option, none, some, [], ◌≡◌, arith, ◌==◌, if◌then◌else◌}
use ovh_cli.Prelude.{Bool, true, false, ◌||◌, eq_iff, eq_refl}
use ovh_cli.Prelude.Dict.{Dict, lookup, insert, lookup-insert}
use ovh_cli.Errors.{Error, errorf}
use ovh_cli.Platform.Disk.{
  Disk, IsAtomic, Stat, missing, dir, file, Contents, no_file, read_failed, bytes,
}
use ovh_cli.Tests.Memory.Blob.{Blob, ini_blob}

pub data Entry : Type 0 where
  folder : ℕ → Entry
  plain : ℕ → Blob → Entry

pub record MemoryFiles : Type 0 where
  pub entries : Dict Entry
  pub locked : String

unfoldable pub stat_entry : Option Entry → Stat
stat_entry none = missing
stat_entry (some (folder m)) = dir m
stat_entry (some (plain m b)) = file m

unfoldable pub read_entry : Option Entry → Contents Blob
read_entry none = no_file
read_entry (some (folder m)) = read_failed (errorf "is a directory" [])
read_entry (some (plain m b)) = bytes b

unfoldable pub make : Dict Entry → String → ℕ → Option Entry → Dict Entry
make d p m none = insert p (folder m) d
make d p m (some e) = d

-- A file that is there keeps its mode.
unfoldable pub kept_mode : ℕ → Option Entry → ℕ
kept_mode m (some (plain k old)) = k
kept_mode m _ = m

unfoldable pub is_folder : Option Entry → Bool
is_folder (some (folder k)) = true
is_folder _ = false

unfoldable pub write_entry : MemoryFiles → String → Blob → ℕ → Option Error × MemoryFiles
write_entry s p b m =
    if s.locked == p || is_folder (lookup p s.entries)
    then (some (errorf "permission denied" []), s)
    else (
      none,
      record s { entries = insert p (plain (kept_mode m (lookup p s.entries)) b) s.entries },
    )

abbrev pub memory_disk : Disk
memory_disk = record {
  State = MemoryFiles;
  Bytes = Blob;
  stat = λ s p. stat_entry (lookup p s.entries);
  read_file = λ s p. read_entry (lookup p s.entries);
  mkdir_all = λ s p m. (none, record s { entries = make s.entries p m (lookup p s.entries) });
  write_file = write_entry;
  umasked = λ m. m;
  is_within = λ p q. p == q;
}

module _ (s : MemoryFiles) (p q : String) (b : Blob) (m : ℕ) where
  lookup-write :
      lookup q (insert p (plain (kept_mode m (lookup p s.entries)) b) s.entries)
      ≡ (if p == q then some (plain (kept_mode m (lookup p s.entries)) b) else lookup q s.entries)
  lookup-write = lookup-insert p q _ s.entries

  read-write :
      (write_entry s p b m).0 ≡ none
      → read_entry (lookup q (write_entry s p b m).1.entries)
        ≡ (if p == q then bytes b else read_entry (lookup q s.entries))
  unfolding write_entry read_entry
  read-write h = ground (arith, lookup-write)

  stat-write_ne :
      (p == q) ≡ false
      → stat_entry (lookup q (write_entry s p b m).1.entries) ≡ stat_entry (lookup q s.entries)
  unfolding write_entry
  stat-write_ne h = ground (arith, lookup-write)

  stat-make :
      (q == p) ≡ false
      → stat_entry (lookup q (make s.entries p m (lookup p s.entries)))
        ≡ stat_entry (lookup q s.entries)
  unfolding make
  stat-make h = ground (arith, lookup-insert p q (folder m) s.entries, eq_iff p q, eq_iff q p)

  read-make :
      (q == p) ≡ false
      → read_entry (lookup q (make s.entries p m (lookup p s.entries)))
        ≡ read_entry (lookup q s.entries)
  unfolding make
  read-make h = ground (arith, lookup-insert p q (folder m) s.entries, eq_iff p q, eq_iff q p)

module _ (s : MemoryFiles) (p : String) (b : Blob) (m : ℕ) where
  stat-write_new :
      (write_entry s p b m).0 ≡ none
      → stat_entry (lookup p s.entries) ≡ missing
      → stat_entry (lookup p (write_entry s p b m).1.entries) ≡ file m
  unfolding write_entry stat_entry kept_mode
  stat-write_new h e = ground (arith, lookup-write s p p b m, eq_refl p)

  stat-write_old :
      (k : ℕ)
      → (write_entry s p b m).0 ≡ none
      → stat_entry (lookup p s.entries) ≡ file k
      → stat_entry (lookup p (write_entry s p b m).1.entries) ≡ file k
  unfolding write_entry stat_entry kept_mode
  stat-write_old k h e = ground (arith, lookup-write s p p b m, eq_refl p)

  write_failed : (e : Error) → (write_entry s p b m).0 ≡ some e → (write_entry s p b m).1 ≡ s
  unfolding write_entry
  write_failed e h = ground arith

module _ (s : MemoryFiles) (p : String) (m : ℕ) where
  stat-make_new :
      stat_entry (lookup p s.entries) ≡ missing
      → stat_entry (lookup p (make s.entries p m (lookup p s.entries))) ≡ dir m
  unfolding make stat_entry
  stat-make_new h = ground (arith, lookup-insert p p (folder m) s.entries, eq_refl p)

  stat-make_old :
      (k : ℕ)
      → stat_entry (lookup p s.entries) ≡ dir k
      → stat_entry (lookup p (make s.entries p m (lookup p s.entries))) ≡ dir k
  unfolding make stat_entry
  stat-make_old k h = ground arith

pub memory_disk-IsAtomic : IsAtomic memory_disk
memory_disk-IsAtomic = record {
  read-write = read-write;
  write_failed = write_failed;
  stat-write_ne = stat-write_ne;
  stat-write_new = stat-write_new;
  stat-write_old = stat-write_old;
  read-mkdir = λ s d q m. read-make s d q (ini_blob (record { names = []; values = [] })) m;
  stat-mkdir = λ s d q m. stat-make s d q (ini_blob (record { names = []; values = [] })) m;
  stat-mkdir_new = λ s d m made. stat-make_new s d m;
  stat-mkdir_old = λ s d m k. stat-make_old s d m k;
  umasked_private = λ m h. h;
}
