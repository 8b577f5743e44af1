-- ===== src/Schema/Refresh/Serving.antt =====
-- Which writes leave a cache that opens as one that opens, whether they succeed or not.
use ovh_cli.Prelude.{false, ◌==◌, sym, subst, String, Option, none, some, ◌≡◌, refl}
use ovh_cli.Prelude.{◌∙◌, arith, eq_refl}
use ovh_cli.Prelude.Dict.{Dict}
use ovh_cli.Errors.{Error, ok}
use ovh_cli.Platform.Disk.{IsAtomic}
use ovh_cli.Platform.Codec.{IsFaithful}
use ovh_cli.Schema.Raw.{IsReindenting, reindented, reindented_services}
use ovh_cli.Auth.Credentials.{Time}
use ovh_cli.Schema.Types.{Meta, ApiSpace, Service, spec_version}
use ovh_cli.Schema.World.{SchemaServices}
use ovh_cli.Schema.Cache.{meta_path, space_path}
use ovh_cli.Schema.Cache.Laws.{IsPrivate, IsHead, IsDescription}
use ovh_cli.Schema.Querier.{CachedQuerier}
use ovh_cli.Schema.Cache.{open_cache_at}
use ovh_cli.Schema.Refresh.Reopened.{open_cache_at-ok}
use ovh_cli.Schema.Refresh.{write_public, done, made, old_meta}
use ovh_cli.Schema.Refresh.Writes.{IsLaidOut, old_meta-eq}

module _ (S : SchemaServices) (path region : String) where
  open S use {disk, meta_json, space_json}

  -- A head of this version and of the region.
  abbrev HasHead : disk.State → Type 0
  HasHead s =
      (m : Meta) × (m.version ≡ spec_version)
      × (m.region ≡ region)
      × IsHead S s (meta_path S path) m

  -- The cache opens with the services.
  abbrev IsOpenable : disk.State → Dict Service → Type 0
  IsOpenable s d = IsPrivate S s path × HasHead s × IsDescription S s (space_path S path) d

  IsPrivate-same :
      (s s' : disk.State)
      → disk.stat s' path ≡ disk.stat s path
      → IsPrivate S s path
      → IsPrivate S s' path
  IsPrivate-same s s' e (k, stat, private) = (k, e ∙ stat, private)

  HasHead-same :
      (s s' : disk.State)
      → disk.read_file s' (meta_path S path) ≡ disk.read_file s (meta_path S path)
      → HasHead s
      → HasHead s'
  HasHead-same s s' e (m, v, r, (b, read, decode)) = (m, v, r, (b, e ∙ read, decode))

  IsDescription-same :
      (s s' : disk.State) (d : Dict Service)
      → disk.read_file s' (space_path S path) ≡ disk.read_file s (space_path S path)
      → IsDescription S s (space_path S path) d
      → IsDescription S s' (space_path S path) d
  IsDescription-same s s' d e (b, space, read, decode, same) = (b, space, e ∙ read, decode, same)

  -- The cache opens with services of a kind.
  abbrev pub Serves {ℓ} : (Dict Service → Type ℓ) → disk.State → Type ℓ
  Serves Q s = (d : Dict Service) × Q d × IsOpenable s d

  -- Such a cache opens.
  pub Serves-opens {ℓ} :
      (Q : Dict Service → Type ℓ) (s : disk.State) (now : Time)
      → (region == "") ≡ false
      → Serves Q s
      → (q : CachedQuerier) × (open_cache_at S s path region now ≡ ok q) × Q q.services
  Serves-opens Q s now nonempty
        (
          d,
          kind,
          ((k, stat, closed), (m, v, r, (b, read, decode)), (c, space, read', decode', same)),
        ) =
      (
        record { meta = m; services = space.services; now = now },
        open_cache_at-ok S path s region now k b c m space nonempty stat closed read decode v r
            read' decode',
        subst Q (sym same) kind,
      )

  module _ {ℓ} (A : IsAtomic disk) (F : IsFaithful meta_json)
      (G : IsReindenting space_json S.reindent) (out : IsLaidOut S path)
      (Q : Dict Service → Type ℓ) where
    mkdir-Serves : (s : disk.State) → Serves Q s → Serves Q (disk.mkdir_all s path 0o700).1
    mkdir-Serves s (d, q, ((k, stat, private), head, description)) = (
      d,
      q,
      (
        (k, A.stat-mkdir_old s path 0o700 k stat, private),
        HasHead-same s _ (A.read-mkdir s path (meta_path S path) 0o700 out.meta_inside) head,
        IsDescription-same s _ d (A.read-mkdir s path (space_path S path) 0o700 out.space_inside)
            description,
      ),
    )

    made-state : (x : Option Error × disk.State) → (made S x).1 ≡ x.1
    unfolding made
    made-state (none, s) = refl
    made-state (some e, s) = refl

    pub made-Serves :
        (s : disk.State) → Serves Q s → Serves Q (made S (disk.mkdir_all s path 0o700)).1
    made-Serves s h =
        subst (Serves Q) (sym (made-state (disk.mkdir_all s path 0o700))) (mkdir-Serves s h)

    write_public-Serves :
        (format p : String) (b : disk.Bytes) (s : disk.State)
        → Serves Q s
        → ((disk.write_file s p b 0o644).0 ≡ none → Serves Q (disk.write_file s p b 0o644).1)
        → Serves Q (write_public S format p b s).1
    unfolding write_public
    write_public-Serves format p b s h k =
        by_error (disk.write_file s p b 0o644) (A.write_failed s p b 0o644) k
      where
        by_error :
            (x : Option Error × disk.State)
            → ((e : Error) → x.0 ≡ some e → x.1 ≡ s)
            → (x.0 ≡ none → Serves Q x.1)
            → Serves Q (done S format x).1
        by_error (none, s₁) f k = k refl
        by_error (some e, s₁) f k = subst (Serves Q) (sym (f e refl)) h

    pub write_head-Serves :
        (format : String) (m : Meta) (b : disk.Bytes) (s : disk.State)
        → meta_json.marshal m ≡ ok b
        → m.version ≡ spec_version
        → m.region ≡ region
        → Serves Q s
        → Serves Q (write_public S format (meta_path S path) b s).1
    write_head-Serves format m b s e v r (d, q, (private, head, description)) =
        write_public-Serves format (meta_path S path) b s (d, q, (private, head, description))
          λ w. (
            d,
            q,
            (
              IsPrivate-same s _ (A.stat-write_ne s (meta_path S path) path b 0o644 out.dir_ne_meta)
                  private,
              (
                m,
                v,
                r,
                (
                  b,
                  A.read-write s (meta_path S path) (meta_path S path) b 0o644 w ∙ rw eq_refl,
                  F.unmarshal-marshal m b e,
                ),
              ),
              IsDescription-same s _ d
                  (A.read-write s (meta_path S path) (space_path S path) b 0o644 w
                    ∙ rw out.files_ne')
                  description,
            ),
          )

    pub write_body-Serves :
        (format : String) (space : ApiSpace) (b : disk.Bytes) (s : disk.State)
        → space_json.marshal space ≡ ok b
        → Q (reindented_services S.reindent space.services)
        → Serves Q s
        → Serves Q (write_public S format (space_path S path) b s).1
    write_body-Serves format space b s e new (d, q, (private, head, description)) =
        write_public-Serves format (space_path S path) b s (d, q, (private, head, description))
          λ w. (
            reindented_services S.reindent space.services,
            new,
            (
              IsPrivate-same s _
                  (A.stat-write_ne s (space_path S path) path b 0o644 out.dir_ne_space) private,
              HasHead-same s _
                  (A.read-write s (space_path S path) (meta_path S path) b 0o644 w
                    ∙ rw out.files_ne)
                  head,
              (
                b,
                reindented S.reindent space,
                A.read-write s (space_path S path) (space_path S path) b 0o644 w ∙ rw eq_refl,
                G.unmarshal-marshal space b e,
                refl,
              ),
            ),
          )

    -- The head that a refresh reads from such a cache is of this version and of the region.
    pub old_meta-Serves :
        (s : disk.State) (m : Meta)
        → Serves Q s
        → old_meta S s path ≡ ok m
        → (m.version ≡ spec_version) × (m.region ≡ region)
    old_meta-Serves s m (d, q, (private, (m', v, r, (b, read, decode)), description)) e =
        let same = old_meta-eq S A F path out m' b s read decode in (ground arith, ground arith)
