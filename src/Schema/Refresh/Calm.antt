-- ===== src/Schema/Refresh/Calm.antt =====
-- No function of internal/schema panics on arguments that meet its preconditions.
use ovh_cli.Prelude.{String, List, Option, none, some, false, ◌≡◌, ◌==◌, ◌<>◌, ◌≢◌, refl, arith}
use ovh_cli.Errors.{Answer, answered, unanswered, to_result, Error, panic, wrap_err}
use ovh_cli.Effect.NoPanic.{
  NoPanic, ok-NoPanic, err-NoPanic, bind-NoPanic, wrap_err-NoPanic, chain-NoPanic,
}
use ovh_cli.Platform.Disk.{no_file, read_failed, bytes, Contents}
use ovh_cli.Platform.Codec.{Codec}
use ovh_cli.Auth.Credentials.{Time}
use ovh_cli.Schema.Types.{ApiSpace, Service}
use ovh_cli.Prelude.Dict.{Dict}
use ovh_cli.Schema.World.{SchemaServices}
use ovh_cli.Schema.Cache.{
  open_cache_at, assert_secure_dir, read_meta, read_services, meta_path, space_path,
}
use ovh_cli.Schema.Fetch.{
  Http, FetchResult, fetch_api_space, get_conditional, answer, assert_host_allowed, Response,
  max_response_bytes,
}
use ovh_cli.Schema.Refresh.{
  refresh_from, refresh_checked, is_nil, write_public, write_fresh, write_hashed, schema_hash,
  meta_of, old_meta, rewrite_meta_fetched_at, store_result, made,
}
use ovh_cli.Schema.Refresh.Writes.{hashed, bumped}
use ovh_cli.Schema.Fetch.{not_modified, modified}

-- Encoding and decoding return errors, and do not panic.
pub record IsCalmCodec {B A : Type 0} (c : Codec B A) : Type 0 where
  pub marshal : (a : A) → NoPanic (c.marshal a)
  pub unmarshal : (b : B) → NoPanic (c.unmarshal b)

-- So does `url.Parse`.
pub record IsCalmHttp (H : Http) : Type 0 where
  pub parse_url : (u : String) → NoPanic (H.parse_url u)

to_result-NoPanic : {A : Type 0} (x : Answer A) → NoPanic (to_result x)
to_result-NoPanic (answered a) = ok-NoPanic a
to_result-NoPanic (unanswered e) = err-NoPanic e

module _ (H : Http) (K : IsCalmHttp H) where
  answer-NoPanic : (etag : String) (r : Response H.Bytes) → NoPanic (answer H etag r)
  unfolding answer
  answer-NoPanic etag r message h =
      ground (arith, h, to_result-NoPanic (H.decode_index max_response_bytes r.body) message)

  get_conditional-NoPanic : (target etag : String) → NoPanic (get_conditional H target etag)
  unfolding get_conditional
  get_conditional-NoPanic target etag =
      bind-NoPanic (to_result (H.get target etag)) _ (to_result-NoPanic (H.get target etag))
        λ r _. answer-NoPanic etag r

  assert_host_allowed-NoPanic :
      (endpoint : String) (hosts : List String)
      → NoPanic (assert_host_allowed H.parse_url endpoint hosts)
  unfolding assert_host_allowed
  assert_host_allowed-NoPanic endpoint hosts message h =
      ground (arith, h, K.parse_url endpoint message)

  pub fetch_api_space-NoPanic :
      (schedule : List String → List String) (region endpoint : String) (hosts : List String)
      (etag : String) (now : Time)
      → NoPanic (fetch_api_space H schedule region endpoint hosts etag now)
  unfolding fetch_api_space
  fetch_api_space-NoPanic schedule region endpoint hosts etag now message h = ground (
    arith,
    h,
    assert_host_allowed-NoPanic endpoint hosts message,
    get_conditional-NoPanic (endpoint <> "/?format=json") etag message,
  )

module _ (S : SchemaServices) (M : IsCalmCodec S.meta_json) (P : IsCalmCodec S.space_json)
    (services_calm : (d : Dict Service) → NoPanic (S.services_json d)) where
  open S use {disk, meta_json, space_json}

  read_meta-NoPanic : (s : disk.State) (file : String) → NoPanic (read_meta S s file)
  unfolding read_meta
  read_meta-NoPanic s file message h = by_contents (disk.read_file s file) refl h
    where
      by_contents :
          (t : Contents disk.Bytes) → disk.read_file s file ≡ t → read_meta S s file ≢ panic message
      by_contents no_file e h = ground arith
      by_contents (read_failed x) e h = ground arith
      by_contents (bytes b) e h = ground (arith, M.unmarshal b message)

  read_services-NoPanic : (s : disk.State) (file : String) → NoPanic (read_services S s file)
  unfolding read_services
  read_services-NoPanic s file message h = by_contents (disk.read_file s file) refl h
    where
      by_contents :
          (t : Contents disk.Bytes)
          → disk.read_file s file ≡ t
          → read_services S s file ≢ panic message
      by_contents no_file e h = ground arith
      by_contents (read_failed x) e h = ground arith
      by_contents (bytes b) e h = ground (arith, P.unmarshal b message)

  -- Opening the cache of a region that is not "" does not panic.
  pub open_cache_at-NoPanic :
      (s : disk.State) (dir region : String) (now : Time)
      → (region == "") ≡ false
      → NoPanic (open_cache_at S s dir region now)
  unfolding open_cache_at assert_secure_dir
  open_cache_at-NoPanic s dir region now nonempty message h = ground (
    arith,
    h,
    nonempty,
    read_meta-NoPanic s (meta_path S dir) message,
    read_services-NoPanic s (space_path S dir) message,
  )

  write_public-NoPanic :
      (format p : String) (b : disk.Bytes) (s : disk.State)
      → NoPanic (write_public S format p b s).0
  unfolding write_public
  write_public-NoPanic format p b s message h = ground (arith, h)

  write_fresh-NoPanic :
      (dir : String) (space : ApiSpace) (s : disk.State) → NoPanic (write_fresh S dir space s).0
  unfolding write_fresh write_hashed schema_hash
  write_fresh-NoPanic dir space s =
      chain-NoPanic (schema_hash S space.services, s) _
        (bind-NoPanic (wrap_err _ _ (S.services_json space.services)) _
          (wrap_err-NoPanic _ _ _ (services_calm space.services)) λ _ _. ok-NoPanic _)
        λ hash _.
          chain-NoPanic (wrap_err _ _ (space_json.marshal (hashed space hash)), s) _
            (wrap_err-NoPanic _ _ _ (P.marshal _))
            λ body _.
              chain-NoPanic (write_public S _ (space_path S dir) body s) _
                (write_public-NoPanic _ (space_path S dir) body s)
                λ _ _.
                  chain-NoPanic
                    (wrap_err _ _ (meta_json.marshal (meta_of S (hashed space hash))), _) _
                    (wrap_err-NoPanic _ _ _ (M.marshal _))
                    λ head _. write_public-NoPanic _ (meta_path S dir) head _

  old_meta-NoPanic : (s : disk.State) (dir : String) → NoPanic (old_meta S s dir)
  unfolding old_meta
  old_meta-NoPanic s dir message h = by_contents (disk.read_file s (meta_path S dir)) refl h
    where
      by_contents :
          (t : Contents disk.Bytes)
          → disk.read_file s (meta_path S dir) ≡ t
          → old_meta S s dir ≢ panic message
      by_contents no_file e h = ground arith
      by_contents (read_failed x) e h = ground arith
      by_contents (bytes b) e h = ground (arith, M.unmarshal b message)

  rewrite_meta-NoPanic :
      (dir etag : String) (now : Time) (s : disk.State)
      → NoPanic (rewrite_meta_fetched_at S dir etag now s).0
  unfolding rewrite_meta_fetched_at
  rewrite_meta-NoPanic dir etag now s =
      chain-NoPanic (old_meta S s dir, s) _ (old_meta-NoPanic s dir)
        λ m _.
          chain-NoPanic (wrap_err _ _ (meta_json.marshal (bumped m etag now)), s) _
            (wrap_err-NoPanic _ _ _ (M.marshal _))
            λ head _. write_public-NoPanic "%w" (meta_path S dir) head s

  store_result-NoPanic :
      (dir : String) (now : Time) (result : FetchResult) (s : disk.State)
      → NoPanic (store_result S dir now result s).0
  unfolding store_result
  store_result-NoPanic dir now (not_modified etag) s = rewrite_meta-NoPanic dir etag now s
  store_result-NoPanic dir now (modified space) s = write_fresh-NoPanic dir space s

  made-NoPanic : (x : Option Error × disk.State) → NoPanic (made S x).0
  unfolding made
  made-NoPanic (none, s) = ok-NoPanic tt
  made-NoPanic (some e, s) = err-NoPanic _

  -- Nor does a refresh that meets the preconditions.
  pub refresh_from-NoPanic :
      (H : Http) (schedule : List String → List String) (region endpoint : String)
      (hosts : List String) (dir : String) (now : Time) (s : disk.State)
      → IsCalmHttp H
      → (region == "") ≡ false
      → (endpoint == "") ≡ false
      → is_nil hosts ≡ false
      → NoPanic (refresh_from S H schedule region endpoint hosts dir now s).0
  unfolding refresh_from refresh_checked
  refresh_from-NoPanic H schedule region endpoint hosts dir now s K hr he hh =
      rw (hr, he, hh)
        (chain-NoPanic (fetch_api_space H schedule region endpoint hosts _ now, s) _
          (fetch_api_space-NoPanic H K schedule region endpoint hosts _ now)
          λ result _.
            chain-NoPanic (made S (disk.mkdir_all s dir 0o700)) _ (made-NoPanic _)
              λ _ _. store_result-NoPanic dir now result _)
