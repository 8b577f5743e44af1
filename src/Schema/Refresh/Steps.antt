-- ===== src/Schema/Refresh/Steps.antt =====
-- internal/schema/refresh.go, one system call at a time: a refresh as a process that other processes
-- may interrupt between its reads and writes.
pub mod Alone
pub mod Sound
pub mod Interleaved
use ovh_cli.Prelude.{
  ℕ, zero, suc, String, List, [], ◌∷◌, ◌≡◌, refl, ◌∙◌, ap, ◌==◌, Bool, true, false, if◌then◌else◌,
}
use ovh_cli.Errors.{Result, ok, err, panic, wrap_err}
use ovh_cli.Effect.{Effect, chain, lift, pure, chain_assoc, ◌>>=◌ as ◌⟫=◌}
use ovh_cli.Auth.Credentials.{Time}
use ovh_cli.Schema.Types.{Meta, ApiSpace}
use ovh_cli.Schema.World.{SchemaServices}
use ovh_cli.Schema.Cache.{meta_path, space_path}
use ovh_cli.Schema.Fetch.{FetchResult, not_modified, modified, fetch_api_space}
use ovh_cli.Schema.Refresh.{
  read_previous_etag, meta_of, refresh_checked, refresh_from, store_result, made, is_nil,
  write_public, write_hashed, write_fresh, schema_hash, old_meta, rewrite_meta_fetched_at,
}
use ovh_cli.Schema.Refresh.Writes.{hashed, bumped}
use ovh_cli.Schema.Refresh.Attempts.{Attempt}

-- Where a refresh stands: what it does next, with what it has read so far.
pub data Process : Type 0 where
  starting : Process
  fetching : String → Process
  creating storing : FetchResult → Process
  heading : ApiSpace → Process
  bumping : String → Meta → Process
  finished : Result (Unit {0}) → Process

-- The process goes on with a value, or ends with the error.
abbrev pub next {ℓ} : {A : Type ℓ} → Result A → (A → Process) → Process
next (ok a) f = f a
next (err e) f = finished (err e)
next (panic m) f = finished (panic m)

module _ (S : SchemaServices) (path : String) where
  open S use {disk, meta_json, space_json}

  -- The write of apispace.json.
  unfoldable pub write_body : ApiSpace → Effect disk.State ApiSpace
  write_body space = lift (schema_hash S space.services) ⟫= λ hash.
      lift (wrap_err "schema: marshal apispace: %w" [] (space_json.marshal (hashed space hash)))
      ⟫= λ body. write_public S "schema: write apispace.json: %w" (space_path S path) body ⟫= λ _.
          pure (hashed space hash)

  -- The write of apispace.meta.json beside a new description, and the one alone.
  unfoldable pub write_head : ApiSpace → Effect disk.State (Unit {0})
  write_head space =
      lift (wrap_err "schema: marshal meta: %w" [] (meta_json.marshal (meta_of S space))) ⟫= λ meta.
      write_public S "schema: write apispace.meta.json: %w" (meta_path S path) meta

  unfoldable pub write_bumped : Time → String → Meta → Effect disk.State (Unit {0})
  write_bumped now etag m s =
      chain (wrap_err "schema: marshal meta: %w" [] (meta_json.marshal (bumped m etag now)), s)
        λ out. write_public S "%w" (meta_path S path) out

module _ (S : SchemaServices) (path region : String) (a : Attempt) where
  open S use {disk, meta_json, space_json}

  abbrev pub fetch : String → Result FetchResult
  fetch etag = fetch_api_space a.http a.schedule region a.endpoint a.hosts etag a.now

  pub start : disk.State → Process
  start s =
      if region == ""
      then finished (panic "schema.Refresh: region must not be empty")
      else if a.endpoint == ""
      then finished (panic "schema.Refresh: endpoint must not be empty")
      else if is_nil a.hosts
      then finished (panic "schema.Refresh: allowedHosts must be non-empty (PRD-05 threat model)")
      else fetching (read_previous_etag S s path)

  -- One step of the process: at most one read or one write of the disk.
  unfoldable pub advance : Process → disk.State → Process × disk.State
  unfolding start
  advance starting s = (start s, s)
  advance (fetching etag) s = (next (fetch etag) creating, s)
  advance (creating result) s =
      let (r, s') = made S (disk.mkdir_all s path 0o700) in (next r λ _. storing result, s')
  advance (storing (not_modified etag)) s = (next (old_meta S s path) (bumping etag), s)
  advance (storing (modified space)) s =
      let (r, s') = write_body S path space s in (next r heading, s')
  advance (heading space) s = let (r, s') = write_head S path space s in (finished r, s')
  advance (bumping etag m) s = let (r, s') = write_bumped S path a.now etag m s in (finished r, s')
  advance (finished r) s = (finished r, s)

  -- What the process does when nothing interrupts it.
  unfoldable pub rest_of : Process → Effect disk.State (Unit {0})
  rest_of starting s = refresh_from S a.http a.schedule region a.endpoint a.hosts path a.now s
  rest_of (fetching etag) s =
      chain (fetch etag, s)
        λ result s₁.
          chain (made S (disk.mkdir_all s₁ path 0o700)) λ _. store_result S path a.now result
  rest_of (creating result) s =
      chain (made S (disk.mkdir_all s path 0o700)) λ _. store_result S path a.now result
  rest_of (storing result) s = store_result S path a.now result s
  rest_of (heading space) s = write_head S path space s
  rest_of (bumping etag m) s = write_bumped S path a.now etag m s
  rest_of (finished r) s = (r, s)

  rest_of-next :
      {A : Type 0} (r : Result A) (f : A → Process) (s : disk.State)
      → rest_of (next r f) s ≡ chain (r, s) (λ x. rest_of (f x))
  unfolding rest_of
  rest_of-next (ok x) f s = refl
  rest_of-next (err e) f s = refl
  rest_of-next (panic m) f s = refl

  rest_of-if :
      (b : Bool) (p q : Process) (s : disk.State)
      → rest_of (if b then p else q) s ≡ (if b then rest_of p s else rest_of q s)
  rest_of-if true p q s = refl
  rest_of-if false p q s = refl

  abbrev refused : String → disk.State → Result (Unit {0}) × disk.State
  refused message s = (panic message, s)

  rest_of-start : (s : disk.State) → rest_of (start s) s ≡ rest_of starting s
  unfolding start rest_of refresh_from refresh_checked
  rest_of-start s =
      rest_of-if (region == "") _ _ s
      ∙ ap (λ x. if region == "" then refused "schema.Refresh: region must not be empty" s else x)
          (rest_of-if (a.endpoint == "") _ _ s
            ∙ ap
                (λ x.
                  if a.endpoint == ""
                  then refused "schema.Refresh: endpoint must not be empty" s
                  else x)
                (rest_of-if (is_nil a.hosts) _ _ s))

  rest_of-storing :
      (space : ApiSpace) (s : disk.State)
      → chain (write_body S path space s) (write_head S path) ≡ write_fresh S path space s
  unfolding write_body write_head write_fresh write_hashed
  rest_of-storing space s =
      chain_assoc (schema_hash S space.services, s) _ _ _
        λ hash s₁.
          chain_assoc (wrap_err _ _ (space_json.marshal (hashed space hash)), s₁) _ _ _
            λ body s₂. chain_assoc (write_public S _ (space_path S path) body s₂) _ _ _ λ _ s₃. refl

  -- A step leaves what is to be done.
  pub rest_of-advance :
      (p : Process) (s : disk.State) → rest_of (advance p s).0 (advance p s).1 ≡ rest_of p s
  unfolding rest_of advance store_result rewrite_meta_fetched_at write_bumped
  rest_of-advance starting s = rest_of-start s
  rest_of-advance (fetching etag) s = rest_of-next (fetch etag) creating s
  rest_of-advance (creating result) s =
      let (r, s') = made S (disk.mkdir_all s path 0o700) in rest_of-next r (λ _. storing result) s'
  rest_of-advance (storing (not_modified etag)) s =
      rest_of-next (old_meta S s path) (bumping etag) s
  rest_of-advance (storing (modified space)) s =
      let (r, s') = write_body S path space s in rest_of-next r heading s' ∙ rest_of-storing space s
  rest_of-advance (heading space) s = refl
  rest_of-advance (bumping etag m) s = refl
  rest_of-advance (finished r) s = refl
