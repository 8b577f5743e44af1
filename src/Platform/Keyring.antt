-- ===== src/Platform/Keyring.antt =====
-- github.com/zalando/go-keyring: `keyring.Get`, `keyring.Set` and `keyring.Delete`.
use ovh_cli.Prelude.{◌≡◌, String, false, Option, none, ◌==◌}

-- `keyring.ErrNotFound`, or another error with its text.
pub data KeyringError : Type 0 where
  not_found : KeyringError
  other : String → KeyringError

pub data Reply : Type 0 where
  secret : String → Reply
  fault : KeyringError → Reply

pub record Keyring : Type 1 where
  pub State : Type 0
  pub get : State → String → String → Reply
  pub set : State → String → String → String → Option KeyringError × State
  pub delete : State → String → String → Option KeyringError × State

-- A write that succeeds is read back, and no operation touches another user's entry.
pub record IsKeyed (K : Keyring) : Type 0 where
  pub get-set :
      (s : K.State) (service user value : String)
      → (K.set s service user value).0 ≡ none
      → K.get (K.set s service user value).1 service user ≡ secret value
  pub get-set_ne :
      (s : K.State) (service user value other_user : String)
      → (user == other_user) ≡ false
      → K.get (K.set s service user value).1 service other_user ≡ K.get s service other_user
  pub get-delete :
      (s : K.State) (service user : String)
      → (K.delete s service user).0 ≡ none
      → K.get (K.delete s service user).1 service user ≡ fault not_found
  pub get-delete_ne :
      (s : K.State) (service user other_user : String)
      → (user == other_user) ≡ false
      → K.get (K.delete s service user).1 service other_user ≡ K.get s service other_user
