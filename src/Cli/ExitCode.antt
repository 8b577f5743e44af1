-- ===== src/Cli/ExitCode.antt =====
-- internal/cli/exitcode/exitcode.go: the exit codes, the codes of errors, and the exit code of an
-- error.
use ovh_cli.Prelude.{ℕ, String, Option, none, some}
use ovh_cli.Errors.{Error}

abbrev pub exit_ok : ℕ
exit_ok = 0

abbrev pub generic : ℕ
generic = 1

abbrev pub usage : ℕ
usage = 2

abbrev pub auth_failure : ℕ
auth_failure = 3

abbrev pub missing_input : ℕ
missing_input = 4

abbrev pub not_found : ℕ
not_found = 5

abbrev pub conflict : ℕ
conflict = 6

abbrev pub rate_limited : ℕ
rate_limited = 7

abbrev pub network : ℕ
network = 8

abbrev pub code_auth_required : String
code_auth_required = "AUTH_REQUIRED"

abbrev pub code_auth_invalid : String
code_auth_invalid = "AUTH_INVALID"

abbrev pub code_missing_input : String
code_missing_input = "MISSING_INPUT"

abbrev pub code_not_found : String
code_not_found = "NOT_FOUND"

abbrev pub code_conflict : String
code_conflict = "CONFLICT"

abbrev pub code_precondition_failed : String
code_precondition_failed = "PRECONDITION_FAILED"

abbrev pub code_rate_limited : String
code_rate_limited = "RATE_LIMITED"

abbrev pub code_network : String
code_network = "NETWORK"

abbrev pub code_usage : String
code_usage = "USAGE"

abbrev pub code_internal : String
code_internal = "INTERNAL"

-- The code of the first error in the chain that carries one (`errors.As`).
abbrev pub Codes : Type 0
Codes = Error → Option ℕ

abbrev code_or_generic : Option ℕ → ℕ
code_or_generic none = generic
code_or_generic (some code) = code

-- `From`; `none` is a nil error.
unfoldable pub from : Codes → Option Error → ℕ
from codes none = exit_ok
from codes (some e) = code_or_generic (codes e)
