-- ===== src/Auth/Store.antt =====
-- internal/auth/store.go: loading, storing and deleting the credentials of a region and profile.
pub mod RoundTrip
pub mod Loaded
pub mod Users
pub mod Names
pub mod Same
pub mod Others
pub mod Session
pub mod Deleted
pub mod Failed
use ovh_cli.Prelude.{String, Bool, not, ◌==◌, ◌&&◌, ◌||◌, eqb, Option, none, some, [], ◌∷◌}
use ovh_cli.Prelude.{if◌then◌else◌}
use ovh_cli.Errors.{
  Result, ok, err, panic, ◌>>=◌, ◌>>◌, ensure, assert, errorf, sentinel, not_configured,
}
use ovh_cli.Effect.{Effect, chain}
use ovh_cli.Auth.Credentials.{Credentials, is_zero, zero_credentials, method_oauth2}
use ovh_cli.Auth.Regions.{region_by_id}
use ovh_cli.Auth.Keyring.{keyring_delete}
use ovh_cli.Auth.World.{Services, World}
use ovh_cli.Auth.Conf.{
  infer_method, load_default_conf, read_creds_from_conf, storage_mode, touch_storage, apply_creds,
  write_ovh_conf, key_of, application_secret, consumer_key, client_secret,
}
use ovh_cli.Auth.HostsFile.{read_hosts_creds, write_hosts_creds, delete_hosts_creds}

-- `readEnv`; a variable that is not set reads as "".
unfoldable pub read_env : (String → String) → String → Credentials
unfolding infer_method
read_env env region =
    if not (env "OVH_REGION" == "") && not (env "OVH_REGION" == region)
    then zero_credentials
    else let creds : Credentials = record zero_credentials {
      region = region;
      profile = "default";
      application_key = env "OVH_APPLICATION_KEY";
      application_secret = env "OVH_APPLICATION_SECRET";
      consumer_key = env "OVH_CONSUMER_KEY";
      client_id = env "OVH_CLIENT_ID";
      client_secret = env "OVH_CLIENT_SECRET";
    } in
      elim (infer_method creds) [ some m ↦ record creds { method = m } | none ↦ zero_credentials ]

-- `if profile == "" { profile = "default" }`
unfoldable pub or_default : String → String
or_default profile = if profile == "" then "default" else profile

-- The region is in the registry.
unfoldable pub is_known : String → Bool
is_known region = elim (region_by_id region) [ none ↦ Bool.false | some _ ↦ Bool.true ]

-- There is OAuth2 session state to persist.
unfoldable pub has_session : Credentials → Bool
has_session c =
    c.method == method_oauth2
    && (not (c.access_token == "") || not (c.refresh_token == "") || not (eqb c.expiry 0))

module _ (S : Services) where
  abbrev pub merged : Credentials → Option Credentials → Credentials
  merged c none = c
  merged c (some c') = c'

  -- `LoadCredentials` after the environment.
  unfoldable pub load_stored : World S → String → String → Result Credentials
  load_stored w region profile = do
    f ← load_default_conf S w
    c ← read_creds_from_conf S w.secrets f region
    ensure (not (is_zero c)) (sentinel not_configured)
    let c₁ : Credentials = record c { profile = profile }
    if c₁.method == method_oauth2
        then (read_hosts_creds S w c₁ region profile >>= λ found. ok (merged c₁ found))
        else ok c₁

  unfoldable pub load_credentials : World S → String → String → Result Credentials
  load_credentials w region profile =
      assert (not (region == ""))
        "auth.LoadCredentials: region must not be empty (PRD-03 pre-condition)"
      >> ensure (is_known region) (errorf "auth: unknown region %q" (region ∷ []))
      >> (let c = read_env w.env region in
          if not (is_zero c)
          then ok (record c { profile = or_default profile })
          else load_stored w region (or_default profile))

  on_ring : {A : Type 0} → Effect S.ring.State A → Effect (World S) A
  on_ring m w = let (r, s) = m w.secrets in (r, record w { secrets = s })

  unfoldable pub on_files : {A : Type 0} → Effect S.disk.State A → Effect (World S) A
  on_files m w = let (r, s) = m w.files in (r, record w { files = s })

  abbrev pub file_or_empty : Option (S.ini.File × String) → S.ini.File
  file_or_empty none = S.ini.empty
  file_or_empty (some (f, _)) = f

  -- `StoreCredentials` after its checks.
  unfoldable pub store_checked : Credentials → Effect (World S) (Unit {0})
  unfolding on_ring on_files
  store_checked creds w =
      chain (load_default_conf S w, w)
        λ found w₀.
          let f = file_or_empty found in
          let storage = storage_mode S (some f) in
          chain (on_ring (apply_creds S (touch_storage S f) creds storage) w₀) λ f' w₁.
            chain (on_files (write_ovh_conf S f') w₁) λ _ w₂.
              if has_session creds then write_hosts_creds S creds storage w₂ else (ok tt, w₂)

  unfoldable pub store_credentials : String → String → Credentials → Effect (World S) (Unit {0})
  store_credentials region profile creds w =
      if region == ""
      then (panic "auth.StoreCredentials: region must not be empty (PRD-03 pre-condition)", w)
      else if is_zero creds
      then (err (errorf "auth: cannot store zero Credentials" []), w)
      else if not (creds.region == region)
      then (
        err (errorf "auth: creds.Region=%q does not match region=%q" (creds.region ∷ region ∷ [])),
        w,
      )
      else store_checked (record creds { profile = or_default profile }) w

  -- The loop of `DeleteCredentials` over `secretFields`.
  unfoldable pub delete_secrets : String → String → S.ring.State → S.ring.State
  delete_secrets region profile s =
      let s₁ = (keyring_delete S.ring region profile (key_of application_secret) s).1 in
      let s₂ = (keyring_delete S.ring region profile (key_of consumer_key) s₁).1 in
      (keyring_delete S.ring region profile (key_of client_secret) s₂).1

  unfoldable pub delete_section :
      String → Option (S.ini.File × String) → Effect (World S) (Unit {0})
  unfolding on_files
  delete_section region none w = (ok tt, w)
  delete_section region (some (f, _)) w =
      if not (S.ini.has_section f region)
      then (ok tt, w)
      else on_files (write_ovh_conf S (S.ini.delete_section f region)) w

  unfoldable pub delete_credentials : String → String → Effect (World S) (Unit {0})
  unfolding delete_section
  delete_credentials region profile w =
      if region == ""
      then (panic "auth.DeleteCredentials: region must not be empty (PRD-03 pre-condition)", w)
      else let p = or_default profile in
        let w₁ : World S = record w { secrets = delete_secrets region p w.secrets } in
        chain (delete_hosts_creds S region p w₁)
          λ _ w₂. chain (load_default_conf S w₂, w₂) λ found w₃. delete_section region found w₃
