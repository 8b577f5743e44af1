-- ===== src/Schema/Diff/Sets.antt =====
-- A comparison sees only the sets of paths.
use mathlib.Core.Quot
use mathlib.Core.Quot.{Quot, Quot-set}
use ovh_cli.Prelude.{String, Bool, false, List, [], ◌∷◌, ◌≡◌, ◌↔◌}
use ovh_cli.Prelude.{◌∙◌, refl, ap, arith, eq_iff}
use ovh_cli.Prelude.Sort.{sort, contains}
use ovh_cli.Prelude.Sort.Distinct.{IsDistinct, HasSameMembers, sort-IsDistinct, sorted_unique}
use ovh_cli.Prelude.Dict.{Dict, remove, lookup, insert, lookup-remove}
use ovh_cli.Schema.Interface.{Querier}
use ovh_cli.Schema.Diff.{Diff, set_of, is_key, keys_where, compare}
use ovh_cli.Schema.Diff.Laws.{compare_lem, contains-keys_where}

-- A list of paths, up to order and repetition.
abbrev pub PathSet : Type 0
PathSet = Quot HasSameMembers

unfoldable pub path_set : Querier → PathSet
path_set q = Quot.mk q.paths

unfoldable pub has : String → PathSet → Bool
has p = Quot.lift (hlevel) (λ l. contains l p) λ l r h. h p

path_set-exact : (a b : Querier) → path_set a ≡ path_set b → HasSameMembers a.paths b.paths
unfolding path_set has
path_set-exact a b e p = ap (has p) e

-- No key of a map stands in it twice.
abbrev HasDistinctKeys : Dict (Unit {0}) → Type 0
HasDistinctKeys [] = Unit
HasDistinctKeys ((p, _) ∷ rest) = (is_key (lookup p rest) ≡ false) × HasDistinctKeys rest

remove-HasDistinctKeys :
    (p : String) (d : Dict (Unit {0})) → HasDistinctKeys d → HasDistinctKeys (remove p d)
unfolding remove lookup
remove-HasDistinctKeys p [] h = tt
remove-HasDistinctKeys p ((q, u) ∷ d) h =
    ground (arith, remove-HasDistinctKeys p d, lookup-remove p q d)

set_of-HasDistinctKeys : (l : List String) → HasDistinctKeys (set_of l)
unfolding set_of insert
set_of-HasDistinctKeys [] = tt
set_of-HasDistinctKeys (v ∷ l) = (
  ground (arith, lookup-remove v v (set_of l), eq_iff v v),
  remove-HasDistinctKeys v (set_of l) (set_of-HasDistinctKeys l),
)

keys_where-IsDistinct :
    (keep : String → Bool) (d : Dict (Unit {0}))
    → HasDistinctKeys d
    → IsDistinct (keys_where keep d)
unfolding keys_where
keys_where-IsDistinct keep [] h = tt
keys_where-IsDistinct keep ((p, u) ∷ d) h =
    ground (arith, keys_where-IsDistinct keep d, contains-keys_where keep d p)

split-IsDistinct :
    (keep : String → Bool) (l : List String) → IsDistinct (sort (keys_where keep (set_of l)))
split-IsDistinct keep l =
    sort-IsDistinct _ (keys_where-IsDistinct keep (set_of l) (set_of-HasDistinctKeys l))

-- No path stands twice in a list of the diff.
pub compare-IsDistinct :
    (a b : Querier)
    → let d = compare a b in IsDistinct d.only_in_a × IsDistinct d.only_in_b × IsDistinct d.common
unfolding compare
compare-IsDistinct a b =
    (split-IsDistinct _ a.paths, split-IsDistinct _ b.paths, split-IsDistinct _ a.paths)

-- The diff of the other way round.
abbrev pub swap : Diff → Diff
swap d = record { only_in_a = d.only_in_b; only_in_b = d.only_in_a; common = d.common }

Diff-ext :
    {d e : Diff}
    → d.only_in_a ≡ e.only_in_a
    → d.only_in_b ≡ e.only_in_b
    → d.common ≡ e.common
    → d ≡ e
Diff-ext p q r i = record { only_in_a = p i; only_in_b = q i; common = r i }

compare-same :
    (a a' b b' : Querier)
    → HasSameMembers a.paths a'.paths
    → HasSameMembers b.paths b'.paths
    → compare a b ≡ compare a' b'
compare-same a a' b b' h k =
    let (s, t, u, x, y, z) = compare_lem a b in
    let (s', t', u', x', y', z') = compare_lem a' b' in
    let (d, e, f) = compare-IsDistinct a b in
    let (d', e', f') = compare-IsDistinct a' b' in
    Diff-ext (sorted_unique _ _ s s' d d' λ p. ground (arith, x p, x' p, h p, k p))
      (sorted_unique _ _ t t' e e' λ p. ground (arith, y p, y' p, h p, k p))
      (sorted_unique _ _ u u' f f' λ p. ground (arith, z p, z' p, h p, k p))

compare-swap : (a b : Querier) → compare b a ≡ swap (compare a b)
compare-swap a b =
    let (s, t, u, x, y, z) = compare_lem a b in
    let (s', t', u', x', y', z') = compare_lem b a in
    let (d, e, f) = compare-IsDistinct a b in
    let (d', e', f') = compare-IsDistinct b a in
    Diff-ext (sorted_unique _ _ s' t d' e λ p. ground (arith, x' p, y p))
      (sorted_unique _ _ t' s e' d λ p. ground (arith, y' p, x p))
      (sorted_unique _ _ u' u f' f λ p. ground (arith, z p, z' p))

-- `Compare` depends only on the two sets of paths, and not on the order or the repetition in which
-- `Paths` returns them, and the other way round it gives the same lists with their sides exchanged.
pub compare-path_set :
    (a a' b b' : Querier)
    → path_set a ≡ path_set a'
    → path_set b ≡ path_set b'
    → (compare a b ≡ compare a' b') × (compare b a ≡ swap (compare a' b'))
compare-path_set a a' b b' p q =
    let same = compare-same a a' b b' (path_set-exact a a' p) (path_set-exact b b' q) in
    (same, compare-swap a b ∙ ap swap same)

no_members : (l : List String) → ((p : String) → contains l p ≡ false) → l ≡ []
unfolding contains
no_members [] h = refl
no_members (x ∷ l) h = ground (arith, h x, eq_iff x x)

-- `Compare` finds nothing on either side alone exactly if the two queriers have the same set of
-- paths.
pub compare-nothing :
    (a b : Querier)
    → (((compare a b).only_in_a ≡ []) × ((compare a b).only_in_b ≡ [])) ↔ (path_set a ≡ path_set b)
unfolding path_set contains
compare-nothing a b =
    let (_, _, _, x, y, _) = compare_lem a b in
    (
      λ (e, f).
          Quot.sound
            λ p. ground (arith, x p, y p, ap (λ l. contains l p) e, ap (λ l. contains l p) f),
      λ h. (
        no_members _ λ p. ground (arith, x p, path_set-exact a b h p),
        no_members _ λ p. ground (arith, y p, path_set-exact a b h p),
      ),
    )
