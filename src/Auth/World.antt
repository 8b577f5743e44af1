-- ===== src/Auth/World.antt =====
-- What internal/auth runs against: the libraries and the state that its functions read and change.
use ovh_cli.Prelude.{String, Option}
use ovh_cli.Platform.Disk.{Disk}
use ovh_cli.Platform.Keyring.{Keyring}
use ovh_cli.Platform.Ini.{Ini}
use ovh_cli.Platform.Codec.{Codec}
use ovh_cli.Auth.Hosts.{HostsFile}

-- `config_file` and `hosts_file` are the paths of internal/xdgpaths, and `dir_of` and `join` are
-- `filepath.Dir` and `filepath.Join`.
pub record Services : Type 1 where
  pub disk : Disk
  pub ring : Keyring
  pub ini : Ini disk.Bytes
  pub yaml : Codec disk.Bytes HostsFile
  pub config_file : String
  pub hosts_file : String
  pub dir_of : String → String
  pub join : String → String → String

-- The files, the keyring, the environment and the home directory, if there is one.
pub record World (S : Services) : Type 0 where
  pub files : S.disk.State
  pub secrets : S.ring.State
  pub env : String → String
  pub home : Option String
