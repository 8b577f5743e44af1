-- ===== src/Cli/Command.antt =====
-- internal/cli/root.go and the `NewCmd` functions: the tree of commands and what each declares to
-- github.com/spf13/cobra.
use ovh_cli.Prelude.{ℕ, String, Bool, true, false, List, [], ◌∷◌}

-- The commands that run, and those that only hold others.
pub data Command : Type 0 where
  version completion refresh show path diff : Command

pub data Group : Type 0 where
  ovh schema : Group

-- `cobra.PositionalArgs`
pub data PositionalArgs : Type 0 where
  no_args only_valid_args : PositionalArgs
  exact_args : ℕ → PositionalArgs
  match_all : PositionalArgs → PositionalArgs → PositionalArgs

-- The default of a flag, of the flag's type.
pub data FlagDefault : Type 0 where
  text : String → FlagDefault
  truth : Bool → FlagDefault
  duration : ℕ → FlagDefault

-- A flag without a shorthand has "".
pub record Flag : Type 0 where
  pub name : String
  pub shorthand : String
  pub default : FlagDefault
  pub usage : String

abbrev flag : String → FlagDefault → String → Flag
flag name default usage = record { name = name; shorthand = ""; default = default; usage = usage }

-- `addGlobalFlags`
abbrev pub global_flags : List Flag
global_flags =
    flag "region" (text "") "OVH endpoint id (default from default.region; see PRD-04)"
    ∷ flag "profile" (text "default") "credential profile within the region"
    ∷ record {
      name = "output";
      shorthand = "o";
      default = text "";
      usage = "output format: table|json|yaml|tsv|template=<expr>";
    }
    ∷ flag "jq" (text "") "filter JSON output through gojq (mirrors gh)"
    ∷ flag "no-color" (truth false) "disable ANSI color (also honors NO_COLOR per no-color.org)"
    ∷ flag "no-prompt" (truth false) "disable every interactive prompt (OVH_NO_PROMPT=1)"
    ∷ flag "debug" (truth false) "slog debug to stderr (secrets redacted per PRD-08)"
    ∷ flag "config" (text "") "path to ovh.conf (overrides discovery; OVH_CONFIG_FILE)"
    ∷ flag "timeout" (duration 0) "client request timeout (e.g. 30s, 1m); default.timeout"
    ∷ []

-- The literal of a `cobra.Command` that runs; `flags` are those of the command alone.
pub record Declaration : Type 0 where
  pub use_line : String
  pub short : String
  pub args : PositionalArgs
  pub valid_args : List String
  pub disable_flags_in_use_line : Bool
  pub flags : List Flag

abbrev declaration : String → String → PositionalArgs → Declaration
declaration use_line short args = record {
  use_line = use_line;
  short = short;
  args = args;
  valid_args = [];
  disable_flags_in_use_line = false;
  flags = [];
}

abbrev pub version_cmd : Declaration
version_cmd = declaration "version" "Print version, commit, and build date" no_args

abbrev pub completion_cmd : Declaration
completion_cmd = record {
  use_line = "completion <bash|zsh|fish|powershell>";
  short = "Generate shell completion script";
  args = match_all (exact_args 1) only_valid_args;
  valid_args = "bash" ∷ "zsh" ∷ "fish" ∷ "powershell" ∷ [];
  disable_flags_in_use_line = true;
  flags = [];
}

abbrev pub refresh_cmd : Declaration
refresh_cmd = declaration "refresh" "Re-fetch the OVH API schema for a region" no_args

abbrev pub show_cmd : Declaration
show_cmd =
    record (declaration "show <path>" "Show the methods declared on an API path" (exact_args 1)) {
      flags = flag "method" (text "") "filter to one HTTP method (GET, POST, ...)" ∷ [];
    }

abbrev pub path_cmd : Declaration
path_cmd = declaration "path <prefix>" "Search API paths by prefix" (exact_args 1)

abbrev pub diff_cmd : Declaration
diff_cmd =
    declaration "diff <region-a> <region-b>"
      "Show capability differences between two cached regions" (exact_args 2)

abbrev pub declared : Command → Declaration
declared version = version_cmd
declared completion = completion_cmd
declared refresh = refresh_cmd
declared show = show_cmd
declared path = path_cmd
declared diff = diff_cmd

-- The literal of a `cobra.Command` that only holds others.
pub record GroupDeclaration : Type 0 where
  pub use_line : String
  pub short : String
  pub silence_usage : Bool
  pub silence_errors : Bool
  pub persistent_flags : List Flag
  pub commands : List Command
  pub groups : List Group

-- `newRootCmd`
abbrev pub root_cmd : GroupDeclaration
root_cmd = record {
  use_line = "ovh";
  short = "OVHcloud CLI and TUI";
  silence_usage = true;
  silence_errors = true;
  persistent_flags = global_flags;
  commands = version ∷ completion ∷ [];
  groups = schema ∷ [];
}

-- `schema.NewCmd`
abbrev pub schema_cmd : GroupDeclaration
schema_cmd = record {
  use_line = "schema";
  short = "Inspect and refresh the cached OVH API schema";
  silence_usage = false;
  silence_errors = false;
  persistent_flags = [];
  commands = refresh ∷ show ∷ path ∷ diff ∷ [];
  groups = [];
}

abbrev pub group_declared : Group → GroupDeclaration
group_declared ovh = root_cmd
group_declared schema = schema_cmd
