-- ===== src/Tests/Commands.antt =====
-- The command line and the process, run and by the theorems.
use ovh_cli.Prelude.{
  ℕ, String, Bool, true, false, none, some, Option, not, List, [], ◌∷◌, ◌==◌, ◌&&◌, ◌≡◌, ◌≢◌, refl,
  subst, arith, if◌then◌else◌,
}
use ovh_cli.Prelude.Sort.{sort, leq}
use ovh_cli.Prelude.Dict.{lookup, insert, remove}
use ovh_cli.Errors.{Error, Result, ok, err, panic, errorf}
use ovh_cli.Effect.NoPanic.{NoPanic, ok-NoPanic}
use ovh_cli.Schema.Interface.{is_found}
use ovh_cli.Schema.Raw.{map_values}
use ovh_cli.Schema.Querier.{
  CachedQuerier, describe, querier, paths, collect_paths, gather_paths, matching_paths,
}
use ovh_cli.Schema.Cache.{open_cache_at, assert_secure_dir, read_meta, read_services}
use ovh_cli.Schema.Diff.{compare, set_of, keys_where}
use ovh_cli.Schema.Refresh.Calm.{IsCalmCodec, IsCalmHttp}
use ovh_cli.Cli.Command.{path, declared}
use ovh_cli.Cli.Schema.{Print, open_cache, diff_command}
use ovh_cli.Cli.Schema.Differs.{Lists, diff_lines, diff_command-Lists}
use ovh_cli.Cli.Root.{Invocation, Parsed, runs, handled, Shell, execute}
use ovh_cli.Cli.Root.Safe.{IsCobra, Accepts}
use ovh_cli.Cli.Main.{exited, main}
use ovh_cli.Cli.Main.Exits.{Reports, main-Reports}
use ovh_cli.Tests.Memory.Blob.{meta_codec, space_codec, decode_meta, decode_space}
use ovh_cli.Tests.Schema.{server, as_listed, cache_services}
use ovh_cli.Tests.Cli.{dirs, after}

abbrev path_invocation : String → Invocation
path_invocation p = record { command = path; region = ""; method = ""; operands = p ∷ [] }

-- Only `path <prefix>` is a command here.
parse : List String → Parsed
parse [] = handled (ok [])
parse (name ∷ []) = handled (err (errorf "unknown command %q" (name ∷ [])))
parse (name ∷ p ∷ rest) =
    if name == "path"
    then runs (path_invocation p)
    else handled (err (errorf "unknown command %q" (name ∷ [])))

abbrev shell : Shell
shell = record {
  parse = parse;
  generators = record {
    gen_bash_completion_v2 = λ b. ok [];
    gen_zsh_completion = ok [];
    gen_fish_completion = λ b. ok [];
    gen_power_shell_completion_with_desc = ok [];
  };
  equal_fold = λ a b. a == b;
  print = λ line. none;
  build = record { version = "dev"; commit = "unknown"; date = "unknown" };
  build_info = none;
}

shell-IsCobra : IsCobra shell
unfolding parse
shell-IsCobra = record {
  accepted = accepted;
  handled_calm = handled_calm;
  bash_calm = λ b. ok-NoPanic [];
  zsh_calm = ok-NoPanic [];
  fish_calm = λ b. ok-NoPanic [];
  power_shell_calm = ok-NoPanic [];
}
  where
    accepted :
        (arguments : List String) (inv : Invocation)
        → parse arguments ≡ runs inv
        → Accepts (declared inv.command).args (declared inv.command).valid_args inv.operands
    accepted [] inv h = absurd (ground (arith, h))
    accepted (name ∷ []) inv h = absurd (ground (arith, h))
    accepted (name ∷ p ∷ rest) inv h = by_name (name == "path") h
      where
        by_name :
            (b : Bool)
            → (if b
                then runs (path_invocation p)
                else handled (err (errorf "unknown command %q" (name ∷ []))))
              ≡ runs inv
            → Accepts (declared inv.command).args (declared inv.command).valid_args inv.operands
        by_name true e =
            let same : path_invocation p ≡ inv = ground (arith, e) in
            subst
              (λ i. Accepts (declared i.command).args (declared i.command).valid_args i.operands)
              same refl
        by_name false e = absurd (ground (arith, e))

    handled_calm :
        (arguments : List String) (r : Result (List Print))
        → parse arguments ≡ handled r
        → NoPanic r
    handled_calm [] r h m e = ground (arith, h, e)
    handled_calm (name ∷ []) r h m e = ground (arith, h, e)
    handled_calm (name ∷ p ∷ rest) r h m e = ground (arith, h, e)

meta-IsCalm : IsCalmCodec meta_codec
unfolding decode_meta
meta-IsCalm = record { marshal = λ m. ok-NoPanic _; unmarshal = λ b m h. ground (arith, h) }

space-IsCalm : IsCalmCodec space_codec
unfolding decode_space
space-IsCalm = record { marshal = λ m. ok-NoPanic _; unmarshal = λ b m h. ground (arith, h) }

server-IsCalm : IsCalmHttp server
server-IsCalm = record { parse_url = λ u. ok-NoPanic _ }

-- No error carries a code.
abbrev no_codes : Error → Option ℕ
no_codes e = none

no_codes-ne : (e : Error) → no_codes e ≢ some 0
no_codes-ne e h = cc

abbrev failed_text : Error → String
failed_text e = "failed"

abbrev arguments : List String
arguments = "path" ∷ "/me" ∷ []

main-Reports_example :
    (code : ℕ) × (lines : List Print) × ((main cache_services dirs shell server as_listed no_codes
        failed_text arguments 10 after).0
      ≡ exited code lines)
    × Reports failed_text
        (execute cache_services dirs shell server as_listed arguments 10 after).0
        code
        lines
unfolding parse
main-Reports_example =
    main-Reports no_codes failed_text no_codes-ne cache_services dirs shell server as_listed
      arguments 10 after meta-IsCalm space-IsCalm (λ d. ok-NoPanic _) shell-IsCobra server-IsCalm
      λ inv e d. ground (arith, e, d)

diffed : List Print
diffed = diff_lines "ovh-eu" "ovh-eu" [] [] ("/me" ∷ "/me/bill" ∷ [])

diffed-eq : diff_command cache_services dirs after "ovh-eu" "ovh-eu" 10 ≡ ok diffed
unfolding after diffed diff_command open_cache open_cache_at assert_secure_dir read_meta
    read_services compare set_of keys_where querier paths collect_paths gather_paths matching_paths
    sort leq lookup insert remove map_values
diffed-eq = refl

diff_command-Lists_example :
    (a : CachedQuerier) × (b : CachedQuerier) × (open_cache cache_services dirs after "ovh-eu" 10
      ≡ ok a)
    × (open_cache cache_services dirs after "ovh-eu" 10 ≡ ok b)
    × ((x : List String) × (y : List String) × (z : List String) × (diffed
          ≡ diff_lines "ovh-eu" "ovh-eu" x y z)
        × Lists x (λ p. is_found (describe a p) && not (is_found (describe b p)))
        × Lists y (λ p. is_found (describe b p) && not (is_found (describe a p)))
        × Lists z (λ p. is_found (describe a p) && is_found (describe b p)))
diff_command-Lists_example =
    diff_command-Lists cache_services dirs after "ovh-eu" "ovh-eu" 10 diffed diffed-eq

-- An empty operand of `schema diff` makes the program panic.
diff_panics :
    diff_command cache_services dirs after "" "ovh-eu" 10
    ≡ panic "schema.OpenCache: region must not be empty"
unfolding diff_command open_cache open_cache_at
diff_panics = refl
