-- ===== src/Cli/Root.antt =====
-- internal/cli/root.go: `Execute`. cobra finds the command that the arguments name, reads its flags
-- and checks its operands; then the command's `RunE` runs.
pub mod Commands
pub mod Safe
use ovh_cli.Prelude.{ℕ, zero, suc, String, Bool, List, [], ◌∷◌, Option}
use ovh_cli.Errors.{Error, Result, ok, panic, ◌>>=◌}
use ovh_cli.Effect.{Effect, chain}
use ovh_cli.Auth.Credentials.{Time}
use ovh_cli.Schema.Fetch.{Http}
use ovh_cli.Schema.World.{SchemaServices}
use ovh_cli.Paths.{Xdg}
use ovh_cli.Cli.Command.{Command, version, completion, refresh, show, path, diff}
use ovh_cli.Cli.Completion.{Generators, completion_command}
use ovh_cli.Cli.Schema.{Print, printf, refresh_command, show_command, path_command, diff_command}
use ovh_cli.Cli.Version.{Build, version_command}

-- A command that is to run, with the values of the flags it reads and its operands.
pub record Invocation : Type 0 where
  pub command : Command
  pub region : String
  pub method : String
  pub operands : List String

-- cobra prints help and reports wrong arguments itself.
pub data Parsed : Type 0 where
  runs : Invocation → Parsed
  handled : Result (List Print) → Parsed

-- cobra's part of `ExecuteContext`, its generators of completions, `strings.EqualFold`, the error of
-- a `Fprintf`, and what the linker and the runtime say of the build.
pub record Shell : Type 0 where
  pub parse : List String → Parsed
  pub generators : Generators
  pub equal_fold : String → String → Bool
  pub print : Print → Option Error
  pub build : Build
  pub build_info : Option (List (String × String))

-- `args[i]`
unfoldable pub operand : ℕ → List String → Result String
operand i [] = panic "index out of range"
operand zero (a ∷ rest) = ok a
operand (suc i) (a ∷ rest) = operand i rest

module _ (S : SchemaServices) (X : Xdg) (T : Shell) (H : Http)
    (schedule : List String → List String) where
  open S use {disk}

  -- The `RunE` of a command. The operands are read first; cobra has checked their number.
  unfoldable pub run_command : Command → Invocation → Time → Effect disk.State (List Print)
  run_command version inv now s = (version_command T.print T.build T.build_info, s)
  run_command completion inv now s = (completion_command T.generators inv.operands, s)
  run_command refresh inv now s =
      chain (refresh_command S X H schedule inv.region now s) λ _ s'. (ok [], s')
  run_command show inv now s = (
    operand 0 inv.operands >>= λ target.
        show_command S X T.equal_fold s inv.region inv.method target now,
    s,
  )
  run_command path inv now s =
      (operand 0 inv.operands >>= λ prefix. path_command S X s inv.region prefix now, s)
  run_command diff inv now s = (
    operand 0 inv.operands >>= λ first.
        operand 1 inv.operands >>= λ second. diff_command S X s first second now,
    s,
  )

  pub run_parsed : Parsed → Time → Effect disk.State (List Print)
  run_parsed (runs inv) now s = run_command inv.command inv now s
  run_parsed (handled r) now s = (r, s)

  -- `Execute`
  unfoldable pub execute : List String → Time → Effect disk.State (List Print)
  unfolding run_parsed
  execute arguments now s = run_parsed (T.parse arguments) now s
