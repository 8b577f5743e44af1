-- ===== src/Cli.antt =====
-- internal/cli and cmd/ovh: the commands, the exit codes and the version.
pub mod Regions
pub mod Schema
pub mod Command
pub mod Completion
pub mod Root
pub mod ExitCode
pub mod Main
pub mod Version
