-- ===== src/Schema/Refresh/Steps/Sound.antt =====
-- What the steps of a refresh keep.
use ovh_cli.Prelude.{String, ◌≡◌, ◌∙◌, refl, ap, arith, ◌==◌}
use ovh_cli.Prelude.Dict.{Dict}
use ovh_cli.Errors.{Result, ok, err, panic, wrap_err, wrap_err-eq-ok}
use ovh_cli.Effect.{if_property, chain_kept, chain-eq-ok, chain_lift-eq-ok}
use ovh_cli.Platform.Disk.{IsAtomic}
use ovh_cli.Platform.Codec.{IsFaithful}
use ovh_cli.Schema.Raw.{IsReindenting, reindented_services}
use ovh_cli.Auth.Credentials.{Time}
use ovh_cli.Schema.Types.{Meta, ApiSpace, Service, spec_version}
use ovh_cli.Schema.World.{SchemaServices}
use ovh_cli.Schema.Cache.{space_path}
use ovh_cli.Schema.Fetch.{FetchResult, not_modified, modified}
use ovh_cli.Schema.Fetch.Laws.{fetch_api_space-head}
use ovh_cli.Schema.Refresh.{schema_hash, meta_of, write_public, old_meta, is_nil}
use ovh_cli.Schema.Refresh.Writes.{IsLaidOut, hashed, bumped}
use ovh_cli.Schema.Refresh.Serving.{
  Serves, made-Serves, write_head-Serves, write_body-Serves, old_meta-Serves,
}
use ovh_cli.Schema.Refresh.Attempts.{Attempt, HasFetched}
use ovh_cli.Schema.Refresh.Steps.{
  Process, starting, fetching, creating, storing, heading, bumping, finished, next, advance, start,
  write_body, write_head, write_bumped, fetch,
}

result-eq {ℓ} : {B S : Type ℓ} {x : Result B × S} {b : B} → x.0 ≡ ok b → x ≡ (ok b, x.1)
result-eq {x = (r, s)} e = ap (λ t. (t, s)) e

module _ (S : SchemaServices) (path region : String) where
  open S use {disk, meta_json, space_json}

  module _ {ℓ} (A : IsAtomic disk) (F : IsFaithful meta_json)
      (G : IsReindenting space_json S.reindent) (out : IsLaidOut S path)
      (Q : Dict Service → Type ℓ) where
    abbrev Open : disk.State → Type ℓ
    Open = Serves S path region Q

    -- What a process carries is of this version and of the region, and its services are of the kind.
    abbrev IsFresh : FetchResult → Type ℓ
    IsFresh (not_modified etag) = Unit
    IsFresh (modified space) =
        (space.version ≡ spec_version)
        × (space.region ≡ region)
        × Q (reindented_services S.reindent space.services)

    abbrev pub IsSound : Process → Type ℓ
    IsSound starting = Unit
    IsSound (fetching etag) = Unit
    IsSound (creating result) = IsFresh result
    IsSound (storing result) = IsFresh result
    IsSound (heading space) = (space.version ≡ spec_version) × (space.region ≡ region) × Unit {ℓ}
    IsSound (bumping etag m) = (m.version ≡ spec_version) × (m.region ≡ region) × Unit {ℓ}
    IsSound (finished r) = Unit

    next-IsSound :
        {B : Type 0} (r : Result B) (f : B → Process)
        → ((b : B) → r ≡ ok b → IsSound (f b))
        → IsSound (next r f)
    next-IsSound (ok b) f h = h b refl
    next-IsSound (err e) f h = tt
    next-IsSound (panic m) f h = tt

    write_body-Open :
        (space : ApiSpace) (s : disk.State)
        → Q (reindented_services S.reindent space.services)
        → Open s
        → Open (write_body S path space s).1
    unfolding write_body
    write_body-Open space s q h =
        chain_kept Open (schema_hash S space.services, s) _ h
          λ hash _.
            chain_kept Open (wrap_err _ _ (space_json.marshal (hashed space hash)), s) _ h
              λ body e.
                let written =
                  write_body-Serves S path region A F G out Q _ (hashed space hash) body s
                    (wrap_err-eq-ok _ _ _ body e) q h in
                chain_kept Open (write_public S _ (space_path S path) body s) _ written
                  λ _ _. written

    write_body-hashed :
        (space h : ApiSpace) (s : disk.State)
        → (write_body S path space s).0 ≡ ok h
        → (hash : String) × (h ≡ hashed space hash)
    unfolding write_body
    write_body-hashed space h s e =
        let (hash, _, r) = chain_lift-eq-ok (schema_hash S space.services) s _ (result-eq e) in
        let (body, _, q) =
          chain_lift-eq-ok (wrap_err _ _ (space_json.marshal (hashed space hash))) s _ r in
        let (_, s₁, _, w) = chain-eq-ok (write_public S _ (space_path S path) body s) _ q in
        (hash, ground (arith, w))

    write_head-Open :
        (space : ApiSpace) (s : disk.State)
        → space.version ≡ spec_version
        → space.region ≡ region
        → Open s
        → Open (write_head S path space s).1
    unfolding write_head
    write_head-Open space s v r h =
        chain_kept Open (wrap_err _ _ (meta_json.marshal (meta_of S space)), s) _ h
          λ head e.
            write_head-Serves S path region A F G out Q _ (meta_of S space) head s
              (wrap_err-eq-ok _ _ _ head e) v r h

    write_bumped-Open :
        (now : Time) (etag : String) (m : Meta) (s : disk.State)
        → m.version ≡ spec_version
        → m.region ≡ region
        → Open s
        → Open (write_bumped S path now etag m s).1
    unfolding write_bumped
    write_bumped-Open now etag m s v r h =
        chain_kept Open (wrap_err _ _ (meta_json.marshal (bumped m etag now)), s) _ h
          λ head e.
            write_head-Serves S path region A F G out Q "%w" (bumped m etag now) head s
              (wrap_err-eq-ok _ _ _ head e) v r h

    start-IsSound : (a : Attempt) (s : disk.State) → IsSound (start S path region a s)
    unfolding start
    start-IsSound a s = if_property IsSound (region == "") _ _ tt (
        if_property IsSound (a.endpoint == "") _ _ tt
          (if_property IsSound (is_nil a.hosts) _ _ tt tt))

    fetched-IsFresh :
        (a : Attempt) (etag : String)
        → ((d : Dict Service) → HasFetched S path region a d → Q d)
        → (result : FetchResult) → fetch S path region a etag ≡ ok result
        → IsFresh result
    fetched-IsFresh a etag f (not_modified e) h = tt
    fetched-IsFresh a etag f (modified space) h =
        let (v, r, _) =
          fetch_api_space-head a.http a.schedule region a.endpoint a.hosts etag a.now space h in
        (v, r, f (reindented_services S.reindent space.services) (etag, space, h, refl))

    -- A step of a process keeps both.
    pub advance-Open :
        (a : Attempt) (p : Process) (s : disk.State)
        → ((d : Dict Service) → HasFetched S path region a d → Q d)
        → IsSound p
        → Open s
        → Open (advance S path region a p s).1 × IsSound (advance S path region a p s).0
    unfolding advance
    advance-Open a starting s f c h = (h, start-IsSound a s)
    advance-Open a (fetching etag) s f c h =
        (h, next-IsSound (fetch S path region a etag) creating (fetched-IsFresh a etag f))
    advance-Open a (creating result) s f c h =
        (made-Serves S path region A F G out Q s h, next-IsSound _ (λ _. storing result) λ _ _. c)
    advance-Open a (storing (not_modified etag)) s f c h = (
      h,
      next-IsSound (old_meta S s path) (bumping etag)
          λ m e. let (v, r) = old_meta-Serves S path region A F G out Q s m h e in (v, r, tt),
    )
    advance-Open a (storing (modified space)) s f (v, r, q) h = (
      write_body-Open space s q h,
      next-IsSound (write_body S path space s).0 heading λ x e.
          let (hash, same) = write_body-hashed space x s e in
          (ap (λ y. y.version) same ∙ v, ap (λ y. y.region) same ∙ r, tt),
    )
    advance-Open a (heading space) s f (v, r, _) h = (write_head-Open space s v r h, tt)
    advance-Open a (bumping etag m) s f (v, r, _) h = (write_bumped-Open a.now etag m s v r h, tt)
    advance-Open a (finished r) s f c h = (h, tt)
