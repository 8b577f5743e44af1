-- ===== src/Cli/Completion.antt =====
-- internal/cli/completion/completion.go: the script of the shell that was asked for.
use ovh_cli.Prelude.{String, Bool, true, List, [], ◌∷◌, ◌==◌, if◌then◌else◌}
use ovh_cli.Errors.{Result, panic}
use ovh_cli.Cli.Schema.{Print}

-- cobra's generators; the Booleans ask for descriptions.
pub record Generators : Type 0 where
  pub gen_bash_completion_v2 : Bool → Result (List Print)
  pub gen_zsh_completion : Result (List Print)
  pub gen_fish_completion : Bool → Result (List Print)
  pub gen_power_shell_completion_with_desc : Result (List Print)

-- The switch of the command.
unfoldable pub completion_for : Generators → String → Result (List Print)
completion_for G shell =
    if shell == "bash"
    then G.gen_bash_completion_v2 true
    else if shell == "zsh"
    then G.gen_zsh_completion
    else if shell == "fish"
    then G.gen_fish_completion true
    else if shell == "powershell"
    then G.gen_power_shell_completion_with_desc
    else panic "completion: unreachable; cobra.OnlyValidArgs guards entry"

-- `args[0]`
unfoldable pub completion_command : Generators → List String → Result (List Print)
completion_command G [] = panic "index out of range [0] with length 0"
completion_command G (shell ∷ rest) = completion_for G shell
