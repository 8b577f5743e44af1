-- ===== src/Platform/Disk.antt =====
-- The file system as the program uses it: `os.Stat`, `os.ReadFile`, `os.MkdirAll` and
-- `renameio.WriteFile`.
use Prim.Native.Nat.{bit_and}
use ovh_cli.Prelude.{◌≡◌, ℕ, String, Bool, false, Option, none, some, ◌==◌, if◌then◌else◌}
use ovh_cli.Errors.{Error}

-- What `os.Stat` says of a path; the number is `info.Mode().Perm()`.
pub data Stat : Type 0 where
  missing : Stat
  stat_failed : Error → Stat
  dir : ℕ → Stat
  file : ℕ → Stat

pub data Contents (B : Type 0) : Type 0 where
  no_file : Contents B
  read_failed : Error → Contents B
  bytes : B → Contents B

pub record Disk : Type 1 where
  pub State : Type 0
  pub Bytes : Type 0
  pub stat : State → String → Stat
  pub read_file : State → String → Contents Bytes
  pub mkdir_all : State → String → ℕ → Option Error × State
  pub write_file : State → String → Bytes → ℕ → Option Error × State
  -- The process's umask, applied to the mode of a new file.
  pub umasked : ℕ → ℕ
  -- The first path is the second or one of its parents.
  pub is_within : String → String → Bool

-- A write replaces the whole file or changes nothing, keeps the mode of a file that is there, and
-- touches no other path. Creating a directory touches that path and its parents.
pub record IsAtomic (D : Disk) : Type 0 where
  pub read-write :
      (s : D.State) (p q : String) (b : D.Bytes) (m : ℕ)
      → (D.write_file s p b m).0 ≡ none
      → D.read_file (D.write_file s p b m).1 q ≡ (if p == q then bytes b else D.read_file s q)
  pub write_failed :
      (s : D.State) (p : String) (b : D.Bytes) (m : ℕ) (e : Error)
      → (D.write_file s p b m).0 ≡ some e
      → (D.write_file s p b m).1 ≡ s
  pub stat-write_ne :
      (s : D.State) (p q : String) (b : D.Bytes) (m : ℕ)
      → (p == q) ≡ false
      → D.stat (D.write_file s p b m).1 q ≡ D.stat s q
  pub stat-write_new :
      (s : D.State) (p : String) (b : D.Bytes) (m : ℕ)
      → (D.write_file s p b m).0 ≡ none
      → D.stat s p ≡ missing
      → D.stat (D.write_file s p b m).1 p ≡ file (D.umasked m)
  pub stat-write_old :
      (s : D.State) (p : String) (b : D.Bytes) (m k : ℕ)
      → (D.write_file s p b m).0 ≡ none
      → D.stat s p ≡ file k
      → D.stat (D.write_file s p b m).1 p ≡ file k
  pub read-mkdir :
      (s : D.State) (d q : String) (m : ℕ)
      → D.is_within q d ≡ false
      → D.read_file (D.mkdir_all s d m).1 q ≡ D.read_file s q
  pub stat-mkdir :
      (s : D.State) (d q : String) (m : ℕ)
      → D.is_within q d ≡ false
      → D.stat (D.mkdir_all s d m).1 q ≡ D.stat s q
  pub stat-mkdir_new :
      (s : D.State) (d : String) (m : ℕ)
      → (D.mkdir_all s d m).0 ≡ none
      → D.stat s d ≡ missing
      → D.stat (D.mkdir_all s d m).1 d ≡ dir (D.umasked m)
  pub stat-mkdir_old :
      (s : D.State) (d : String) (m k : ℕ)
      → D.stat s d ≡ dir k
      → D.stat (D.mkdir_all s d m).1 d ≡ dir k
  pub umasked_private : (m : ℕ) → bit_and m 0o077 ≡ 0 → bit_and (D.umasked m) 0o077 ≡ 0
