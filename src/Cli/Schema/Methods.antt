-- ===== src/Cli/Schema/Methods.antt =====
-- What `ovh schema show` prints of a path.
use ovh_cli.Prelude.{
  String, Bool, true, false, Option, none, some, List, [], ◌∷◌, ◌++◌, ◌==◌, ◌&&◌, ◌||◌, ◌≡◌, refl,
  ◌∙◌, sym, ap, arith, eq_iff, Bool-cases, inl, inr, if◌then◌else◌,
}
use ovh_cli.Prelude.Sort.{sort, contains, contains-sort, IsSorted, sort-IsSorted, leq_trans}
use ovh_cli.Prelude.Dict.{lookup}
use ovh_cli.Errors.{ok, wrap_err, wrap_err-eq-ok, bind_inversion}
use ovh_cli.Auth.Credentials.{Time}
use ovh_cli.Schema.Types.{PathSpec, MethodSpec}
use ovh_cli.Schema.Querier.{CachedQuerier, describe}
use ovh_cli.Schema.World.{SchemaServices}
use ovh_cli.Cli.Schema.{
  Print, resolve_region_flag, open_cache, method_names, sorted_methods, show_method, show_methods,
  shown, show_command,
}
use ovh_cli.Paths.{Xdg}

abbrev pub is_declared : Option MethodSpec → Bool
is_declared none = false
is_declared (some _) = true

-- The methods that the flag `--method` asks for; "" asks for all.
abbrev pub is_wanted : (String → String → Bool) → String → String → Bool
is_wanted equal_fold method m = method == "" || equal_fold m method

where_kept : (String → Bool) → List String → List String
where_kept keep [] = []
where_kept keep (x ∷ l) = let rest = where_kept keep l in if keep x then x ∷ rest else rest

IsSorted-skip : (x y : String) (l : List String) → IsSorted (x ∷ y ∷ l) → IsSorted (x ∷ l)
IsSorted-skip x y [] h = tt
IsSorted-skip x y (z ∷ l) h = (leq_trans x y z h.0 h.1.0, h.1.1)

cons-where_kept-IsSorted :
    (keep : String → Bool) (x : String) (l : List String)
    → IsSorted (x ∷ l)
    → IsSorted (x ∷ where_kept keep l)
unfolding where_kept
cons-where_kept-IsSorted keep x [] h = tt
cons-where_kept-IsSorted keep x (y ∷ l) h = elim (Bool-cases (keep y)) [
  | inl e ↦ rw e (h.0, cons-where_kept-IsSorted keep y l h.1)
  | inr e ↦ rw e (cons-where_kept-IsSorted keep x l (IsSorted-skip x y l h))
]

where_kept-IsSorted :
    (keep : String → Bool) (l : List String) → IsSorted l → IsSorted (where_kept keep l)
unfolding where_kept
where_kept-IsSorted keep [] h = tt
where_kept-IsSorted keep (x ∷ l) h = elim (Bool-cases (keep x)) [
  | inl e ↦ rw e (cons-where_kept-IsSorted keep x l h)
  | inr e ↦ rw e (where_kept-IsSorted keep l (rest x l h))
]
  where
    rest : (x : String) (l : List String) → IsSorted (x ∷ l) → IsSorted l
    rest x [] h = tt
    rest x (y ∷ l) h = h.1

contains-where_kept :
    (keep : String → Bool) (l : List String) (p : String)
    → contains (where_kept keep l) p ≡ (contains l p && keep p)
unfolding where_kept contains
contains-where_kept keep [] p = refl
contains-where_kept keep (x ∷ l) p =
    ground (arith, contains-where_kept keep l p, eq_iff x p, λ (e : x ≡ p). ap keep e)

contains-method_names :
    (ps : PathSpec) (m : String) → contains (method_names ps) m ≡ is_declared (lookup m ps)
unfolding method_names contains lookup
contains-method_names [] m = refl
contains-method_names ((k, spec) ∷ rest) m = ground (arith, contains-method_names rest m)

-- The prints of the methods of a list, one after the other.
abbrev pub prints : PathSpec → String → List String → List Print
prints ps path [] = []
prints ps path (m ∷ rest) = show_method ps path m ++ prints ps path rest

show_methods-where_kept :
    (equal_fold : String → String → Bool) (ps : PathSpec) (path method : String) (l : List String)
    → show_methods equal_fold ps path method l
      ≡ prints ps path (where_kept (is_wanted equal_fold method) l)
unfolding show_methods where_kept
show_methods-where_kept equal_fold ps path method [] = refl
show_methods-where_kept equal_fold ps path method (m ∷ l) =
    ground (arith, show_methods-where_kept equal_fold ps path method l)

-- What a run of `show` that succeeds printed.
pub record Shown (S : SchemaServices) (X : Xdg) (equal_fold : String → String → Bool)
    (s : S.disk.State) (flag method path : String) (now : Time) (out : List Print) : Type 0 where
  pub q : CachedQuerier
  pub opened : open_cache S X s (resolve_region_flag flag) now ≡ ok q
  pub ps : PathSpec
  pub described : describe q path ≡ some ps
  pub methods : List String
  pub printed : out ≡ prints ps path methods
  pub sorted : IsSorted methods
  pub wanted :
      (m : String)
      → contains methods m ≡ (is_declared (lookup m ps) && is_wanted equal_fold method m)

module _ (S : SchemaServices) (X : Xdg) (equal_fold : String → String → Bool) where
  -- `schema show` succeeds only if the cache opens and describes the path, and then prints, in
  -- ascending order, exactly the methods that are declared on the path and that the flag asks for,
  -- each with its description and how it is authenticated.
  pub show_command-Shown :
      (s : S.disk.State) (flag method path : String) (now : Time) (out : List Print)
      → show_command S X equal_fold s flag method path now ≡ ok out
      → Shown S X equal_fold s flag method path now out
  unfolding show_command sorted_methods
  show_command-Shown s flag method path now out h =
      let (q, e, r) =
        bind_inversion
          (wrap_err "open cache for %s: %w" (resolve_region_flag flag ∷ [])
            (open_cache S X s (resolve_region_flag flag) now))
          _ h in
      by_description q (wrap_err-eq-ok _ _ _ q e) (describe q path) refl r
    where
      by_description :
          (q : CachedQuerier)
          → open_cache S X s (resolve_region_flag flag) now ≡ ok q
          → (o : Option PathSpec) → describe q path ≡ o
          → shown S X equal_fold (resolve_region_flag flag) method path o ≡ ok out
          → Shown S X equal_fold s flag method path now out
      by_description q e none d r = ground arith
      by_description q e (some ps) d r = record {
        q = q;
        opened = e;
        ps = ps;
        described = d;
        methods = where_kept (is_wanted equal_fold method) (sort (method_names ps));
        printed =
            sym (ground arith)
            ∙ show_methods-where_kept equal_fold ps path method (sort (method_names ps));
        sorted = where_kept-IsSorted _ _ (sort-IsSorted (method_names ps));
        wanted = λ m.
            contains-where_kept (is_wanted equal_fold method) (sort (method_names ps)) m
            ∙ ap (λ b. b && is_wanted equal_fold method m)
                (contains-sort (method_names ps) m ∙ contains-method_names ps m);
      }
