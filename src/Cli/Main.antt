-- ===== src/Cli/Main.antt =====
-- cmd/ovh/main.go: the process, which runs the command line and exits.
pub mod Exits
use ovh_cli.Prelude.{ℕ, String, some, List, [], ◌∷◌}
use ovh_cli.Errors.{Error, Result, ok, err, panic}
use ovh_cli.Auth.Credentials.{Time}
use ovh_cli.Schema.Fetch.{Http}
use ovh_cli.Schema.World.{SchemaServices}
use ovh_cli.Paths.{Xdg}
use ovh_cli.Cli.ExitCode.{Codes, exit_ok, from}
use ovh_cli.Cli.Schema.{Print, printf, text}
use ovh_cli.Cli.Root.{Shell, execute}

-- The process exits with a code, having written to stderr, or it panics.
pub data Exit : Type 0 where
  exited : ℕ → List Print → Exit
  crashed : String → Exit

-- `run` on what `cli.Execute` returns; `error_text` is `err.Error()`.
unfoldable pub run : Codes → (Error → String) → Result (List Print) → Exit
run codes error_text (ok printed) = exited exit_ok []
run codes error_text (err e) =
    exited (from codes (some e)) (printf "error: %v\n" (text (error_text e) ∷ []) ∷ [])
run codes error_text (panic message) = crashed message

-- `main`: how the process ends, and what it leaves on the disk.
unfoldable pub main :
    (S : SchemaServices)
    → Xdg
    → Shell
    → Http
    → (List String → List String)
    → Codes
    → (Error → String)
    → List String
    → Time
    → S.disk.State
    → Exit × S.disk.State
main S X T H schedule codes error_text arguments now s =
    let (result, s') = execute S X T H schedule arguments now s in (run codes error_text result, s')
