-- ===== src/Platform.antt =====
-- What the program calls and does not implement, as records of operations, each with a record of
-- the documented behaviour that theorems may assume: the file system with
-- github.com/google/renameio, github.com/zalando/go-keyring, gopkg.in/ini.v1, and the YAML and JSON
-- encodings. `Tests.Memory` has a value of each that meets its assumptions.
pub mod Disk
pub mod Keyring
pub mod Ini
pub mod Codec
