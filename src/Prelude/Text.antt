-- ===== src/Prelude/Text.antt =====
-- Texts: the tests of Go's `strings` package that the program uses.
use Prim.Native.Char.{code}
use Prim.Native.String.{String, ◌++◌ as ◌<>◌}
use mathlib.Core.Path.{◌≡◌}
use mathlib.Core.Bool.{Bool, true, false}
use mathlib.Core.Logic.{◌≢◌}
use mathlib.Core.Option.{Option, none, some}
use native.Mathlib.Omega.{arith}
use text.Mathlib.Text.{◌==◌}
use text.Mathlib.TextEquality.{eq_iff}
use text.Mathlib.TextLemmas.{nil-append, cons-append}
use ovh_cli.Prelude.Tests.{if◌then◌else◌, eqb}

-- What follows the prefix `p` in a text, if the text begins with `p`.
pub strip : String → String → Option String
strip String.[] s = some s
strip (String.◌∷◌ c p) String.[] = none
strip (String.◌∷◌ c p) (String.◌∷◌ d s) =
    let rest = strip p s in if eqb (code c) (code d) then rest else none

abbrev from_some : String → Option String → String
from_some s none = s
from_some s (some t) = t

abbrev is_some : Option String → Bool
is_some none = false
is_some (some t) = true

-- `strings.HasPrefix(s, p)`
unfoldable pub has_prefix : String → String → Bool
unfolding strip
has_prefix s p = is_some (strip p s)

-- `strings.TrimPrefix(s, p)`
unfoldable pub trim_prefix : String → String → String
unfolding strip
trim_prefix s p = from_some s (strip p s)

strip-append : (p s : String) → strip p (p <> s) ≡ some s
unfolding strip
strip-append String.[] s = rw nil-append
strip-append (String.◌∷◌ c p) s = rw cons-append (ground (arith, strip-append p s))

pub has_prefix-append : (p s : String) → has_prefix (p <> s) p ≡ true
unfolding has_prefix
has_prefix-append p s = ground (arith, strip-append p s)

pub has_prefix_empty : (s : String) → has_prefix s "" ≡ true
unfolding has_prefix strip
has_prefix_empty s = ground arith

pub trim_prefix-append : (p s : String) → trim_prefix (p <> s) p ≡ s
unfolding trim_prefix
trim_prefix-append p s = ground (arith, strip-append p s)

pub eq_of_test : (s t : String) → (s == t) ≡ true → s ≡ t
eq_of_test s t h = (eq_iff s t).0 h

pub ne-test : (s t : String) → s ≢ t → (s == t) ≡ false
ne-test s t h = ground (arith, eq_iff s t)
