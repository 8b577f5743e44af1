-- ===== src/Auth/Keyring.antt =====
-- internal/auth/keyring.go: secrets in the OS keyring, and the placeholders that stand for them.
pub mod Laws
use ovh_cli.Prelude.{String, ◌<>◌, Bool, Option, none, some, [], ◌∷◌, has_prefix}
use ovh_cli.Errors.{not_configured, keyring_unavailable, Error, sentinel, wrapf}
use ovh_cli.Errors.{Result, ok, err}
use ovh_cli.Effect.{Effect}
use ovh_cli.Platform.Keyring.{Keyring, KeyringError, not_found, other, Reply, secret, fault}

abbrev pub keyring_service : String
keyring_service = "ovh-cli"

abbrev pub placeholder_prefix : String
placeholder_prefix = "keyring:"

-- The account under which a secret is kept.
unfoldable pub keyring_user : String → String → String → String
keyring_user region profile key = region <> (":" <> (profile <> (":" <> key)))

unfoldable pub is_placeholder : String → Bool
is_placeholder v = has_prefix v placeholder_prefix

unfoldable pub make_placeholder : String → String → String → String
make_placeholder region profile key = placeholder_prefix <> keyring_user region profile key

-- `mapKeyringError`
unfoldable pub map_keyring_error : KeyringError → Error
map_keyring_error not_found = sentinel not_configured
map_keyring_error (other text) = wrapf "%w: %v" (text ∷ []) (sentinel keyring_unavailable)

module _ (K : Keyring) where
  set_result : Option KeyringError × K.State → Result (Unit {0}) × K.State
  set_result (none, s) = (ok tt, s)
  set_result (some e, s) = (err (wrapf "auth: keyring write: %w" [] (map_keyring_error e)), s)

  unfoldable pub keyring_set : String → String → String → String → Effect K.State (Unit {0})
  unfolding set_result
  keyring_set region profile key value s =
      set_result (K.set s keyring_service (keyring_user region profile key) value)

  get_result : Reply → Result String
  get_result (secret v) = ok v
  get_result (fault e) = err (map_keyring_error e)

  unfoldable pub keyring_get : K.State → String → String → String → Result String
  unfolding get_result
  keyring_get s region profile key =
      get_result (K.get s keyring_service (keyring_user region profile key))

  delete_result : Option KeyringError × K.State → Result (Unit {0}) × K.State
  delete_result (none, s) = (ok tt, s)
  delete_result (some not_found, s) = (ok tt, s)
  delete_result (some (other text), s) = (err (map_keyring_error (other text)), s)

  unfoldable pub keyring_delete : String → String → String → Effect K.State (Unit {0})
  unfolding delete_result
  keyring_delete region profile key s =
      delete_result (K.delete s keyring_service (keyring_user region profile key))
