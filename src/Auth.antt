-- ===== src/Auth.antt =====
-- internal/auth: credentials, regions, the keyring, ovh.conf, hosts.yml and the store over them.
pub mod Credentials
pub mod Regions
pub mod Keyring
pub mod Hosts
pub mod World
pub mod Conf
pub mod HostsFile
pub mod Store
pub mod Loopback
pub mod Flow
pub mod OAuth
