-- ===== src/Auth/Conf.antt =====
-- internal/auth/ovhconf.go: credentials in the [region] sections of ovh.conf.
pub mod Raw
pub mod Ring
pub mod Secrets
pub mod RoundTrip
pub mod Files
pub mod Kept
pub mod Others
pub mod Untouched
pub mod Writable
pub mod Same
use ovh_cli.Prelude.{String, not, ◌&&◌, ◌||◌, ◌==◌, Option, none, some}
use ovh_cli.Prelude.{List, [], ◌∷◌, ◌++◌, if◌then◌else◌, trim_prefix}
use ovh_cli.Errors.{Error, Result, ok, err, ◌>>=◌, wrap_err, wrapf, errorf}
use ovh_cli.Effect.{Effect, chain, lift, ◌>>=◌ as ◌⟫=◌}
use ovh_cli.Platform.Disk.{missing, stat_failed, dir, file, no_file, read_failed, bytes}
use ovh_cli.Auth.Credentials.{
  Credentials, zero_credentials, Method, method_consumer_key, method_oauth2,
}
use ovh_cli.Auth.Keyring.{keyring_user, is_placeholder, make_placeholder, placeholder_prefix}
use ovh_cli.Auth.Keyring.{keyring_get, keyring_set, keyring_delete}
use ovh_cli.Auth.World.{Services, World}

abbrev pub storage_keyring : String
storage_keyring = "keyring"

-- `secretFields`: the credentials that may be kept in the keyring.
pub data SecretField : Type 0 where
  application_secret consumer_key client_secret : SecretField

abbrev pub secret_fields : List SecretField
secret_fields = application_secret ∷ consumer_key ∷ client_secret ∷ []

unfoldable pub key_of : SecretField → String
key_of application_secret = "application_secret"
key_of consumer_key = "consumer_key"
key_of client_secret = "client_secret"

unfoldable pub get : SecretField → Credentials → String
get application_secret c = c.application_secret
get consumer_key c = c.consumer_key
get client_secret c = c.client_secret

unfoldable pub set : SecretField → String → Credentials → Credentials
set application_secret v c = record c { application_secret = v }
set consumer_key v c = record c { consumer_key = v }
set client_secret v c = record c { client_secret = v }

-- The method that credentials without one have.
unfoldable pub infer_method : Credentials → Option Method
infer_method c =
    if not (c.application_key == "") || not (c.consumer_key == "")
    then some method_consumer_key
    else if not (c.client_id == "") && not (c.client_secret == "")
    then some method_oauth2
    else none

-- The switch on auth_method; what is neither method is inferred, or gives no credentials.
unfoldable pub choose_method : String → Credentials → Credentials
unfolding infer_method
choose_method auth_method c =
    if auth_method == method_consumer_key
    then record c { method = method_consumer_key }
    else if auth_method == method_oauth2
    then record c { method = method_oauth2 }
    else elim (infer_method c) [ some m ↦ record c { method = m } | none ↦ zero_credentials ]

module _ (S : Services) where
  open S use {disk, ring, ini}

  -- `ini.Load(path)`
  unfoldable pub load_ini : World S → String → Result ini.File
  load_ini w path = elim (disk.read_file w.files path) [
    | no_file ↦ err (errorf "open %s: no such file" (path ∷ []))
    | read_failed e ↦ err e
    | bytes b ↦ ini.parse b
  ]

  -- The loop of `loadDefaultConf`: the first path that is there and is no directory.
  unfoldable pub find_conf : World S → List String → Result (Option (ini.File × String))
  unfolding load_ini
  find_conf w [] = ok none
  find_conf w (p ∷ rest) = elim (disk.stat w.files p) [
    | missing ↦ find_conf w rest
    | stat_failed e ↦ err (wrapf "auth: stat %s: %w" (p ∷ []) e)
    | dir _ ↦ find_conf w rest
    | file _ ↦ wrap_err "auth: parse %s: %w" (p ∷ []) (load_ini w p) >>= λ f. ok (some (f, p))
  ]

  unfoldable pub conf_paths : World S → List String
  conf_paths w =
      elim w.home [ none ↦ "ovh.conf" ∷ [] | some h ↦ "ovh.conf" ∷ S.join h ".ovh.conf" ∷ [] ]
      ++ S.config_file ∷ "/etc/ovh.conf" ∷ []

  unfoldable pub load_default_conf : World S → Result (Option (ini.File × String))
  load_default_conf w = find_conf w (conf_paths w)

  -- `f.Section("default").Key("storage")` adds the section and the key where they are missing.
  unfoldable pub touch_storage : ini.File → ini.File
  touch_storage f = ini.key (ini.section f "default") "default" "storage"

  unfoldable pub storage_mode : Option ini.File → String
  unfolding touch_storage
  storage_mode none = storage_keyring
  storage_mode (some f) =
      let v = ini.value (touch_storage f) "default" "storage" in
      if v == "" then storage_keyring else v

  unfoldable pub resolve_secret : ring.State → String → String → String → String → Result String
  resolve_secret s v region profile key =
      if not (is_placeholder v)
      then ok v
      else if not (trim_prefix v placeholder_prefix == keyring_user region profile key)
      then err (
          errorf "auth: placeholder %q does not match expected %q"
            (v ∷ make_placeholder region profile key ∷ []))
      else keyring_get ring s region profile key

  -- One round of the loop of `readCredsFromConf`.
  unfoldable pub read_secret :
      ring.State → ini.File → String → SecretField → Credentials → Result Credentials
  read_secret s f region sf c =
      let v = ini.value f region (key_of sf) in
      if v == ""
      then ok c
      else (resolve_secret s v region "default" (key_of sf) >>= λ resolved. ok (set sf resolved c))

  unfoldable pub read_secrets :
      ring.State → ini.File → String → List SecretField → Credentials → Result Credentials
  read_secrets s f region [] c = ok c
  read_secrets s f region (sf ∷ rest) c =
      read_secret s f region sf c >>= read_secrets s f region rest

  -- Looking a key up adds an empty key to the library's value, which the caller then drops.
  unfoldable pub read_creds_from_conf :
      ring.State → Option (ini.File × String) → String → Result Credentials
  unfolding read_secrets
  read_creds_from_conf s none region = ok zero_credentials
  read_creds_from_conf s (some (f, _)) region =
      if not (ini.has_section f region) then ok zero_credentials else do
        c ← read_secrets s f region secret_fields (record zero_credentials {
          region = region;
          profile = "default";
          application_key = ini.value f region "application_key";
          client_id = ini.value f region "client_id";
        })
        ok (choose_method (ini.value f region "auth_method") c)

  -- `s.Key(key).SetValue(value)`
  unfoldable pub put_value : ini.File → String → String → String → ini.File
  put_value f section key value = ini.set_value (ini.key f section key) section key value

  unfoldable pub set_or_delete : ini.File → String → String → String → ini.File
  unfolding put_value
  set_or_delete f section key value =
      if value == "" then ini.delete_key f section key else put_value f section key value

  -- One round of the loop of `applyCreds`.
  unfoldable pub apply_secret :
      Credentials → String → SecretField → ini.File → Effect ring.State ini.File
  unfolding put_value
  apply_secret creds storage sf f s =
      let v = get sf creds in
      let key = key_of sf in
      if v == ""
      then (
        ok (ini.delete_key f creds.region key),
        (keyring_delete ring creds.region "default" key s).1,
      )
      else if storage == storage_keyring
      then chain (keyring_set ring creds.region "default" key v s) (λ _ s'.
        (ok (put_value f creds.region key (make_placeholder creds.region "default" key)), s'))
      else (ok (put_value f creds.region key v), s)

  unfoldable pub apply_secrets :
      Credentials → String → List SecretField → ini.File → Effect ring.State ini.File
  apply_secrets creds storage [] f s = (ok f, s)
  apply_secrets creds storage (sf ∷ rest) f s =
      chain (apply_secret creds storage sf f s) (apply_secrets creds storage rest)

  unfoldable pub apply_creds : ini.File → Credentials → String → Effect ring.State ini.File
  unfolding set_or_delete
  apply_creds f creds storage =
      let f₁ = ini.section f creds.region in
      let f₂ = set_or_delete f₁ creds.region "auth_method" creds.method in
      let f₃ = set_or_delete f₂ creds.region "application_key" creds.application_key in
      apply_secrets creds storage secret_fields
        (set_or_delete f₃ creds.region "client_id" creds.client_id)

  pub written : Option Error × disk.State → Result (Unit {0}) × disk.State
  written (none, s) = (ok tt, s)
  written (some e, s) = (err e, s)

  pub made : Option Error × disk.State → Result (Unit {0}) × disk.State
  made (none, s) = (ok tt, s)
  made (some e, s) = (err (wrapf "auth: mkdir config dir: %w" [] e), s)

  -- `os.MkdirAll(filepath.Dir(path), 0o700)`, with the error that its callers make of it.
  unfoldable pub make_config_dir : String → Effect disk.State (Unit {0})
  unfolding made
  make_config_dir path s = made (disk.mkdir_all s (S.dir_of path) 0o700)

  -- `renameio.WriteFile(path, b, 0o600)`
  unfoldable pub write_private : String → disk.Bytes → Effect disk.State (Unit {0})
  unfolding written
  write_private path b s = written (disk.write_file s path b 0o600)

  unfoldable pub write_ovh_conf : ini.File → Effect disk.State (Unit {0})
  unfolding make_config_dir write_private
  write_ovh_conf f = make_config_dir S.config_file ⟫= λ _.
      lift (wrap_err "auth: marshal ini: %w" [] (ini.write_to f)) ⟫= λ b.
      write_private S.config_file b
