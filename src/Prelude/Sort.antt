-- ===== src/Prelude/Sort.antt =====
-- `sort.Strings`: texts in ascending order of their code points, which is the order of their UTF-8
-- bytes, and membership in lists of texts.
pub mod Distinct
use Prim.Native.Char.{Char, code}
use Prim.Native.String.{String}
use mathlib.Core.Path.{◌≡◌, refl, ◌∙◌, ap, ap₂}
use mathlib.Core.Bool.{Bool, true, false, ◌||◌}
use mathlib.Core.List.{List, [], ◌∷◌, ◌++◌}
use mathlib.Core.List.{Permᴰ}
use native.Mathlib.Omega.{arith}
use text.Mathlib.Text.{◌==◌}
use text.Mathlib.TextEquality.{Char-path}
use ovh_cli.Prelude.Tests.{if◌then◌else◌, ltb, eqb}

-- `s <= t`
unfoldable pub leq : String → String → Bool
leq String.[] t = true
leq (String.◌∷◌ c s) String.[] = false
leq (String.◌∷◌ c s) (String.◌∷◌ d t) =
    let rest = leq s t in
    if ltb (code c) (code d) then true else if eqb (code c) (code d) then rest else false

pub leq_total : (s t : String) → leq s t ≡ false → leq t s ≡ true
unfolding leq
leq_total String.[] t h = ground arith
leq_total (String.◌∷◌ c s) String.[] h = refl
leq_total (String.◌∷◌ c s) (String.◌∷◌ d t) h = ground (arith, leq_total s t)

pub leq_trans : (s t u : String) → leq s t ≡ true → leq t u ≡ true → leq s u ≡ true
unfolding leq
leq_trans String.[] t u h k = refl
leq_trans (String.◌∷◌ c s) String.[] u h k = ground arith
leq_trans (String.◌∷◌ c s) (String.◌∷◌ d t) String.[] h k = ground arith
leq_trans (String.◌∷◌ c s) (String.◌∷◌ d t) (String.◌∷◌ e u) h k = ground (arith, leq_trans s t u)

cons-eq : (c d : Char) (s t : String) → code c ≡ code d → s ≡ t → String.◌∷◌ c s ≡ String.◌∷◌ d t
cons-eq c d s t p q = cc (Char-path c d p)

pub leq_antisym : (s t : String) → leq s t ≡ true → leq t s ≡ true → s ≡ t
unfolding leq
leq_antisym String.[] String.[] h k = refl
leq_antisym String.[] (String.◌∷◌ d t) h k = ground arith
leq_antisym (String.◌∷◌ c s) String.[] h k = ground arith
leq_antisym (String.◌∷◌ c s) (String.◌∷◌ d t) h k =
    cons-eq c d s t (ground arith) (leq_antisym s t (ground arith) (ground arith))

pub place : String → List String → List String
place x [] = x ∷ []
place x (y ∷ l) = let rest = place x l in if leq x y then x ∷ y ∷ l else y ∷ rest

unfoldable pub sort : List String → List String
unfolding place
sort [] = []
sort (x ∷ l) = place x (sort l)

-- A text is one of a list.
unfoldable pub contains : List String → String → Bool
contains [] a = false
contains (x ∷ l) a = x == a || contains l a

pub contains-place :
    (x : String) (l : List String) (a : String)
    → contains (place x l) a ≡ ((x == a) || contains l a)
unfolding place contains
contains-place x [] a = refl
contains-place x (y ∷ l) a = ground (arith, contains-place x l a)

pub contains-sort : (l : List String) (a : String) → contains (sort l) a ≡ contains l a
unfolding sort contains
contains-sort [] a = refl
contains-sort (x ∷ l) a = contains-place x (sort l) a ∙ ap (λ b. (x == a) || b) (contains-sort l a)

pub contains-append :
    (l r : List String) (a : String) → contains (l ++ r) a ≡ (contains l a || contains r a)
unfolding contains
contains-append [] r a = refl
contains-append (x ∷ l) r a = ground (arith, contains-append l r a)

-- Ascending: no text stands before a smaller one.
abbrev pub IsSorted : List String → Type 0
IsSorted [] = Unit
IsSorted (x ∷ []) = Unit
IsSorted (x ∷ y ∷ l) = (leq x y ≡ true) × IsSorted (y ∷ l)

place-IsSorted : (x : String) (l : List String) → IsSorted l → IsSorted (place x l)
unfolding place
place-IsSorted x [] h = tt
place-IsSorted x (y ∷ []) h = ground (arith, leq_total x y)
place-IsSorted x (y ∷ z ∷ l) h =
    ground (arith, leq_total x y, leq_total x z, place-IsSorted x (z ∷ l) h.1)

pub sort-IsSorted : (l : List String) → IsSorted (sort l)
unfolding sort
sort-IsSorted [] = tt
sort-IsSorted (x ∷ l) = place-IsSorted x (sort l) (sort-IsSorted l)

place_comm : (x y : String) (l : List String) → place x (place y l) ≡ place y (place x l)
unfolding place
place_comm x y [] = ground (arith, leq_total x y, leq_antisym x y)
place_comm x y (z ∷ l) = ground (
  arith,
  place_comm x y l,
  leq_total x y,
  leq_antisym x y,
  leq_trans x y z,
  leq_trans y x z,
  leq_total x z,
  leq_total y z,
)

-- The order in which texts were collected does not matter.
pub sort-perm : {l r : List String} → Permᴰ l r → sort l ≡ sort r
unfolding sort
sort-perm Permᴰ.nil = refl
sort-perm (Permᴰ.cons {a = a} {l₁ = l} e p) = ap₂ place e (sort-perm p)
sort-perm (Permᴰ.swap {a = a} {b = b} {l = l} e f) =
    place_comm a b (sort l) ∙ ap₂ (λ x y. place x (place y (sort l))) f e
sort-perm (Permᴰ.trans p q) = sort-perm p ∙ sort-perm q
