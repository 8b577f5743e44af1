-- ===== src/Schema/Refresh/Writes.antt =====
-- The cache files after a refresh that succeeded.
use ovh_cli.Prelude.{String, false, ◌≡◌, ◌∙◌, arith, ◌==◌, if◌then◌else◌, eq_refl}
use ovh_cli.Prelude.{none}
use ovh_cli.Errors.{ok, wrap_err, wrap_err-eq-ok}
use ovh_cli.Effect.{chain-eq-ok, chain_lift-eq-ok}
use ovh_cli.Platform.Disk.{bytes, IsAtomic}
use ovh_cli.Platform.Codec.{IsFaithful}
use ovh_cli.Schema.Raw.{IsReindenting, reindented}
use ovh_cli.Auth.Credentials.{Time}
use ovh_cli.Schema.Types.{Meta, ApiSpace}
use ovh_cli.Schema.World.{SchemaServices}
use ovh_cli.Schema.Cache.{meta_path, space_path}
use ovh_cli.Schema.Refresh.{
  schema_hash, write_public, meta_of, write_fresh, write_hashed, rewrite_meta_fetched_at, old_meta,
}

-- The two cache files are different ones, inside the cache directory.
pub record IsLaidOut (S : SchemaServices) (path : String) : Type 0 where
  pub files_ne : (space_path S path == meta_path S path) ≡ false
  pub files_ne' : (meta_path S path == space_path S path) ≡ false
  pub dir_ne_meta : (meta_path S path == path) ≡ false
  pub dir_ne_space : (space_path S path == path) ≡ false
  pub meta_inside : S.disk.is_within (meta_path S path) path ≡ false
  pub space_inside : S.disk.is_within (space_path S path) path ≡ false

-- The description as written, with the hash of its services.
abbrev pub hashed : ApiSpace → String → ApiSpace
hashed space hash = record space { schema_hash = hash }

-- The head after an answer that nothing changed.
abbrev pub bumped : Meta → String → Time → Meta
bumped m etag now = record m { fetched_at = now; etag = if etag == "" then m.etag else etag }

module _ (S : SchemaServices) (A : IsAtomic S.disk) (F : IsFaithful S.meta_json) (path : String)
    (out : IsLaidOut S path) where
  open S use {disk, meta_json, space_json}

  write_public-eq :
      (format p : String) (b : disk.Bytes) (s s' : disk.State)
      → write_public S format p b s ≡ (ok tt, s')
      → ((disk.write_file s p b 0o644).0 ≡ none) × (s' ≡ (disk.write_file s p b 0o644).1)
  unfolding write_public
  write_public-eq format p b s s' h = ground arith

  pub old_meta-eq :
      (m : Meta) (old : disk.Bytes) (s : disk.State)
      → disk.read_file s (meta_path S path) ≡ bytes old
      → meta_json.unmarshal old ≡ ok m
      → old_meta S s path ≡ ok m
  unfolding old_meta
  old_meta-eq m old s hr hm = ground arith

  -- Only the head's time and ETag change, and the description is as it was.
  pub rewrite_meta-read :
      (m : Meta) (old : disk.Bytes) (etag : String) (now : Time) (s s' : disk.State)
      → disk.read_file s (meta_path S path) ≡ bytes old
      → meta_json.unmarshal old ≡ ok m
      → rewrite_meta_fetched_at S path etag now s ≡ (ok tt, s')
      → (head : disk.Bytes) × (disk.read_file s' (meta_path S path) ≡ bytes head)
        × (meta_json.unmarshal head ≡ ok (bumped m etag now))
        × (disk.read_file s' (space_path S path) ≡ disk.read_file s (space_path S path))
        × (disk.stat s' path ≡ disk.stat s path)
  unfolding rewrite_meta_fetched_at
  rewrite_meta-read m old etag now s s' hr hm h =
      let (head, e, r) =
        chain_lift-eq-ok (wrap_err _ _ (meta_json.marshal (bumped m etag now))) s _
          (rw (old_meta-eq m old s hr hm) at h) in
      let (w, q) = write_public-eq _ _ head s s' r in
      (
        head,
        rw q (A.read-write s (meta_path S path) (meta_path S path) head 0o644 w ∙ rw eq_refl),
        F.unmarshal-marshal _ head (wrap_err-eq-ok _ _ _ head e),
        rw q
            (A.read-write s (meta_path S path) (space_path S path) head 0o644 w ∙ rw out.files_ne'),
        rw q (A.stat-write_ne s (meta_path S path) path head 0o644 out.dir_ne_meta),
      )

module _ (S : SchemaServices) (A : IsAtomic S.disk) (F : IsFaithful S.meta_json)
    (G : IsReindenting S.space_json S.reindent) (path : String) (out : IsLaidOut S path) where
  open S use {disk, meta_json, space_json}

  -- Both files can be decoded, to the description and to the head that goes with it.
  write_hashed-read :
      (space : ApiSpace) (s s' : disk.State)
      → write_hashed S path space s ≡ (ok tt, s')
      → (body : disk.Bytes) × (head : disk.Bytes) × (disk.read_file s' (space_path S path)
          ≡ bytes body)
        × (space_json.unmarshal body ≡ ok (reindented S.reindent space))
        × (disk.read_file s' (meta_path S path) ≡ bytes head)
        × (meta_json.unmarshal head ≡ ok (meta_of S (space)))
        × (disk.stat s' path ≡ disk.stat s path)
  unfolding write_hashed
  write_hashed-read space s s' h =
      let (body, e₁, r₁) = chain_lift-eq-ok (wrap_err _ _ (space_json.marshal (space))) s _ h in
      let (_, s₁, e₂, r₂) = chain-eq-ok (write_public S _ (space_path S path) body s) _ r₁ in
      let (head, e₃, r₃) =
        chain_lift-eq-ok (wrap_err _ _ (meta_json.marshal (meta_of S (space)))) s₁ _ r₂ in
      let (w₁, q₁) = write_public-eq S A F path out _ _ body s s₁ e₂ in
      let (w₂, q₂) = write_public-eq S A F path out _ _ head s₁ s' r₃ in
      (
        body,
        head,
        rw q₂ (
            A.read-write s₁ (meta_path S path) (space_path S path) head 0o644 w₂
            ∙ rw (out.files_ne', q₁)
                (A.read-write s (space_path S path) (space_path S path) body 0o644 w₁
                  ∙ rw eq_refl)),
        G.unmarshal-marshal _ body (wrap_err-eq-ok _ _ _ body e₁),
        rw q₂ (A.read-write s₁ (meta_path S path) (meta_path S path) head 0o644 w₂ ∙ rw eq_refl),
        F.unmarshal-marshal _ head (wrap_err-eq-ok _ _ _ head e₃),
        rw q₂ (
            A.stat-write_ne s₁ (meta_path S path) path head 0o644 out.dir_ne_meta
            ∙ rw q₁ (A.stat-write_ne s (space_path S path) path body 0o644 out.dir_ne_space)),
      )

  -- The same for the description with its hash.
  pub write_fresh-read :
      (space : ApiSpace) (s s' : disk.State)
      → write_fresh S path space s ≡ (ok tt, s')
      → (hash : String) × (body : disk.Bytes) × (head : disk.Bytes) × (disk.read_file s'
            (space_path S path)
          ≡ bytes body)
        × (space_json.unmarshal body ≡ ok (reindented S.reindent (hashed space hash)))
        × (disk.read_file s' (meta_path S path) ≡ bytes head)
        × (meta_json.unmarshal head ≡ ok (meta_of S (hashed space hash)))
        × (disk.stat s' path ≡ disk.stat s path)
  unfolding write_fresh
  write_fresh-read space s s' h =
      let (hash, e, r) = chain_lift-eq-ok (schema_hash S space.services) s _ h in
      let (body, head, b₁, b₂, m₁, m₂, same) = write_hashed-read (hashed space hash) s s' r in
      (hash, body, head, b₁, b₂, m₁, m₂, same)
