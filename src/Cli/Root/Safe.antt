-- ===== src/Cli/Root/Safe.antt =====
-- Which command lines make the program panic.
use ovh_cli.Prelude.{String, Bool, true, false, List, [], ◌∷◌, ◌≡◌, ◌==◌, refl, arith, eq_iff}
use ovh_cli.Prelude.Sort.{contains}
use ovh_cli.Prelude.{Option}
use ovh_cli.Cli.Version.{Build, version_command}
use ovh_cli.Errors.{Error, Result, ◌>>=◌}
use ovh_cli.Effect.NoPanic.{NoPanic, ok-NoPanic, chain-NoPanic}
use ovh_cli.Auth.Credentials.{Time}
use ovh_cli.Schema.Types.{Service}
use ovh_cli.Schema.World.{SchemaServices}
use ovh_cli.Schema.Fetch.{Http}
use ovh_cli.Prelude.Dict.{Dict}
use ovh_cli.Schema.Refresh.Calm.{IsCalmCodec, IsCalmHttp}
use ovh_cli.Paths.{Xdg}
use ovh_cli.Cli.Command.{
  Command, version, completion, refresh, show, path, diff, PositionalArgs, no_args, exact_args,
  only_valid_args, match_all, declared,
}
use ovh_cli.Cli.Completion.{completion_for, completion_command}
use ovh_cli.Cli.Schema.{Print, count, refresh_command}
use ovh_cli.Cli.Root.{
  Invocation, Parsed, runs, handled, Shell, operand, run_command, run_parsed, execute,
}
use ovh_cli.Cli.Root.Commands.{
  path_command-NoPanic, show_command-NoPanic, diff_command-NoPanic, refresh_command-NoPanic,
}

-- What cobra's documentation says that a check of arguments accepts.
abbrev pub Accepts : PositionalArgs → List String → List String → Type 0
Accepts no_args valid operands = operands ≡ []
Accepts only_valid_args valid operands =
    (a : String) → contains operands a ≡ true → contains valid a ≡ true
Accepts (exact_args n) valid operands = count operands ≡ n
Accepts (match_all p q) valid operands = Accepts p valid operands × Accepts q valid operands

-- cobra runs a command only with operands that its check accepts, and does not panic itself.
pub record IsCobra (T : Shell) : Type 0 where
  pub accepted :
      (arguments : List String) (inv : Invocation)
      → T.parse arguments ≡ runs inv
      → Accepts (declared inv.command).args (declared inv.command).valid_args inv.operands
  pub handled_calm :
      (arguments : List String) (r : Result (List Print))
      → T.parse arguments ≡ handled r
      → NoPanic r
  pub bash_calm : (b : Bool) → NoPanic (T.generators.gen_bash_completion_v2 b)
  pub zsh_calm : NoPanic T.generators.gen_zsh_completion
  pub fish_calm : (b : Bool) → NoPanic (T.generators.gen_fish_completion b)
  pub power_shell_calm : NoPanic T.generators.gen_power_shell_completion_with_desc

module _ (T : Shell) (C : IsCobra T) where
  completion_for-NoPanic :
      (shell : String)
      → contains ("bash" ∷ "zsh" ∷ "fish" ∷ "powershell" ∷ []) shell ≡ true
      → NoPanic (completion_for T.generators shell)
  unfolding completion_for contains
  completion_for-NoPanic shell h message e = ground (
    arith,
    h,
    e,
    eq_iff shell "bash",
    eq_iff shell "zsh",
    eq_iff shell "fish",
    eq_iff shell "powershell",
    eq_iff "bash" shell,
    eq_iff "zsh" shell,
    eq_iff "fish" shell,
    eq_iff "powershell" shell,
    C.bash_calm true message,
    C.zsh_calm message,
    C.fish_calm true message,
    C.power_shell_calm message,
  )

  completion_command-NoPanic :
      (operands : List String)
      → Accepts (declared completion).args (declared completion).valid_args operands
      → NoPanic (completion_command T.generators operands)
  unfolding completion_command contains
  completion_command-NoPanic [] (h, k) = absurd (ground arith)
  completion_command-NoPanic (shell ∷ rest) (h, k) =
      completion_for-NoPanic shell (k shell (ground (arith, eq_iff shell shell)))

version_command-NoPanic :
    (print : Print → Option Error) (b : Build) (info : Option (List (String × String)))
    → NoPanic (version_command print b info)
unfolding version_command
version_command-NoPanic print b info message h = ground (arith, h)

module _ (S : SchemaServices) (X : Xdg) (M : IsCalmCodec S.meta_json) (P : IsCalmCodec S.space_json)
    (services_calm : (d : Dict Service) → NoPanic (S.services_json d)) where
  open S use {disk}

  module _ (T : Shell) (C : IsCobra T) (H : Http) (K : IsCalmHttp H)
      (schedule : List String → List String) where
    operand-NoPanic :
        (l : List String) (f : String → Result (List Print))
        → count l ≡ 1
        → ((a : String) → NoPanic (f a))
        → NoPanic (operand 0 l >>= f)
    unfolding operand
    operand-NoPanic [] f h k = absurd (ground arith)
    operand-NoPanic (a ∷ rest) f h k = k a

    operands-NoPanic :
        (l : List String) (f : String → String → Result (List Print))
        → count l ≡ 2
        → contains l "" ≡ false
        → ((a b : String) → (a == "") ≡ false → (b == "") ≡ false → NoPanic (f a b))
        → NoPanic (operand 0 l >>= λ a. operand 1 l >>= λ b. f a b)
    unfolding operand contains
    operands-NoPanic [] f h n k = absurd (ground arith)
    operands-NoPanic (a ∷ []) f h n k = absurd (ground arith)
    operands-NoPanic (a ∷ b ∷ rest) f h n k = k a b (ground arith) (ground arith)

    run_command-NoPanic :
        (command : Command) (inv : Invocation) (now : Time) (s : disk.State)
        → Accepts (declared command).args (declared command).valid_args inv.operands
        → (command ≡ diff → contains inv.operands "" ≡ false)
        → NoPanic (run_command S X T H schedule command inv now s).0
    unfolding run_command
    run_command-NoPanic version inv now s h d = version_command-NoPanic T.print T.build T.build_info
    run_command-NoPanic completion inv now s h d = completion_command-NoPanic T C inv.operands h
    run_command-NoPanic refresh inv now s h d =
        chain-NoPanic (refresh_command S X H schedule inv.region now s) _
          (refresh_command-NoPanic S X M P services_calm H schedule inv.region now s K)
          λ _ _. ok-NoPanic _
    run_command-NoPanic show inv now s h d =
        operand-NoPanic inv.operands _ h
          λ a. show_command-NoPanic S X M P services_calm T.equal_fold s inv.region inv.method a now
    run_command-NoPanic path inv now s h d =
        operand-NoPanic inv.operands _ h
          λ a. path_command-NoPanic S X M P services_calm s inv.region a now
    run_command-NoPanic diff inv now s h d =
        operands-NoPanic inv.operands _ h (d refl)
          λ a b e f. diff_command-NoPanic S X M P services_calm s a b now e f

    -- No command line makes the program panic, apart from `ovh schema diff` with an empty operand, if
    -- cobra runs a command only with operands that its check accepts, and the libraries do not panic.
    pub execute-NoPanic :
        (arguments : List String) (now : Time) (s : disk.State)
        → ((inv : Invocation)
            → T.parse arguments ≡ runs inv
            → inv.command ≡ diff
            → contains inv.operands "" ≡ false)
        → NoPanic (execute S X T H schedule arguments now s).0
    unfolding execute run_parsed
    execute-NoPanic arguments now s h = by_parse (T.parse arguments) refl
      where
        by_parse :
            (parsed : Parsed)
            → T.parse arguments ≡ parsed
            → NoPanic (run_parsed S X T H schedule parsed now s).0
        by_parse (runs inv) e =
            run_command-NoPanic inv.command inv now s (C.accepted arguments inv e) (h inv e)
        by_parse (handled r) e = C.handled_calm arguments r e
