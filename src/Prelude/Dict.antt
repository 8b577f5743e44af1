-- ===== src/Prelude/Dict.antt =====
-- Go maps with text keys as association lists. A nil map and an empty one are both `[]`.
use mathlib.Core.Path.{◌≡◌, refl}
use mathlib.Core.Bool.{Bool, true, false}
use mathlib.Core.Option.{Option, none, some}
use mathlib.Core.List.{List, [], ◌∷◌}
use native.Mathlib.Omega.{arith}
use Prim.Native.String.{String}
use text.Mathlib.Text.{◌==◌}
use text.Mathlib.TextEquality.{eq_iff}
use ovh_cli.Prelude.Tests.{if◌then◌else◌}

abbrev pub Dict {ℓ} : Type ℓ → Type ℓ
Dict V = List (String × V)

module _ {ℓ} {V : Type ℓ} where
  -- `len(m) == 0`
  abbrev pub is_empty : Dict V → Bool
  is_empty [] = true
  is_empty (_ ∷ _) = false

  -- `delete(m, key)`. Every entry of the key goes; a Go map has at most one.
  unfoldable pub remove : String → Dict V → Dict V
  remove key [] = []
  remove key (entry ∷ rest) =
      let others = remove key rest in if entry.0 == key then others else entry ∷ others

  -- `value, ok := m[key]`
  unfoldable pub lookup : String → Dict V → Option V
  lookup key [] = none
  lookup key (entry ∷ rest) =
      let later = lookup key rest in if entry.0 == key then some entry.1 else later

  -- `m[key] = value`; the order of a Go map is not specified.
  unfoldable pub insert : String → V → Dict V → Dict V
  insert key value entries = (key, value) ∷ remove key entries

  pub lookup-remove :
      (gone key : String) (entries : Dict V)
      → lookup key (remove gone entries) ≡ (if gone == key then none else lookup key entries)
  unfolding remove lookup
  lookup-remove gone key [] = ground arith
  lookup-remove gone key ((first, value) ∷ rest) =
      ground
        (arith, lookup-remove gone key rest, eq_iff first gone, eq_iff first key, eq_iff gone key)

  lookup-cons :
      (first : String) (value : V) (key : String) (rest : Dict V)
      → lookup key ((first, value) ∷ rest) ≡ (if first == key then some value else lookup key rest)
  unfolding lookup
  lookup-cons first value key rest = refl

  pub lookup-insert :
      (new key : String) (value : V) (entries : Dict V)
      → lookup key (insert new value entries)
        ≡ (if new == key then some value else lookup key entries)
  unfolding insert
  lookup-insert new key value entries =
      ground (arith, lookup-cons new value key (remove new entries), lookup-remove new key entries)
