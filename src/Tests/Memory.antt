-- ===== src/Tests/Memory.antt =====
-- Libraries in memory: every record of operations of `Platform`, with the proof that it meets its
-- assumptions. The runs and the witnesses use them.
mod Disk
mod Ring
mod IniFile
pub mod Blob
unfoldable pub use Disk.*
unfoldable pub use Ring.*
unfoldable pub use IniFile.*
