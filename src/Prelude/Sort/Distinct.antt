-- ===== src/Prelude/Sort/Distinct.antt =====
-- Lists of texts without repetition, and that an ascending one is determined by its members.
use mathlib.Core.Path.{◌≡◌, refl, ◌∙◌, ap₂}
use mathlib.Core.Bool.{true, false}
use mathlib.Core.List.{List, [], ◌∷◌}
use Prim.Native.String.{String}
use native.Mathlib.Omega.{arith}
use text.Mathlib.TextEquality.{eq_iff}
use ovh_cli.Prelude.Sort.{
  leq, leq_trans, leq_antisym, place, sort, contains, contains-place, contains-sort, IsSorted,
}

abbrev pub IsDistinct : List String → Type 0
IsDistinct [] = Unit
IsDistinct (x ∷ l) = (contains l x ≡ false) × IsDistinct l

-- Two lists have the same members.
abbrev pub HasSameMembers : List String → List String → Type 0
HasSameMembers l r = (p : String) → contains l p ≡ contains r p

place-IsDistinct :
    (x : String) (l : List String) → contains l x ≡ false → IsDistinct l → IsDistinct (place x l)
unfolding place contains
place-IsDistinct x [] h d = (refl, tt)
place-IsDistinct x (y ∷ l) h d =
    ground (arith, place-IsDistinct x l, contains-place x l y, eq_iff x y, eq_iff y x)

pub sort-IsDistinct : (l : List String) → IsDistinct l → IsDistinct (sort l)
unfolding sort
sort-IsDistinct [] d = tt
sort-IsDistinct (x ∷ l) (h, d) =
    place-IsDistinct x (sort l) (contains-sort l x ∙ h) (sort-IsDistinct l d)

-- The first of an ascending list is its least.
leq-member :
    (x y : String) (l : List String) → IsSorted (x ∷ l) → contains l y ≡ true → leq x y ≡ true
unfolding contains
leq-member x y [] s h = ground arith
leq-member x y (z ∷ l) (e, s) h = ground (arith, leq-member z y l s, leq_trans x z y, eq_iff z y)

IsSorted-tail : (x : String) (l : List String) → IsSorted (x ∷ l) → IsSorted l
IsSorted-tail x [] s = tt
IsSorted-tail x (y ∷ l) (e, s) = s

-- Ascending lists without repetition that have the same members are equal.
pub sorted_unique :
    (l r : List String)
    → IsSorted l
    → IsSorted r
    → IsDistinct l
    → IsDistinct r
    → HasSameMembers l r
    → l ≡ r
unfolding contains
sorted_unique [] [] s t d e h = refl
sorted_unique [] (y ∷ r) s t d e h = ground (arith, h y, eq_iff y y)
sorted_unique (x ∷ l) [] s t d e h = ground (arith, h x, eq_iff x x)
sorted_unique (x ∷ l) (y ∷ r) s t d e h =
    let same : x ≡ y = ground (
      arith,
      h x,
      h y,
      eq_iff x y,
      eq_iff y x,
      eq_iff x x,
      eq_iff y y,
      leq-member x y l s,
      leq-member y x r t,
      leq_antisym x y,
    ) in
    ap₂ ◌∷◌ same (
      sorted_unique l r (IsSorted-tail x l s) (IsSorted-tail y r t) d.1 e.1
        λ p. ground (arith, h p, same, d.0, e.0, eq_iff x p, eq_iff y p))
