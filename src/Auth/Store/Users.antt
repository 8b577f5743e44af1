-- ===== src/Auth/Store/Users.antt =====
-- The users of the keyring: those of a session's tokens and those of the secrets of ovh.conf.
use Prim.Native.Char.{code}
use ovh_cli.Prelude.{ℕ, String, ◌<>◌, false, ◌≡◌, ◌≢◌, refl, sym, ◌∙◌, ap, arith, ◌==◌, ne-test}
use text.Mathlib.TextLemmas.{nil-append, cons-append, append_cancel_left}
use ovh_cli.Auth.Keyring.{keyring_user}
use ovh_cli.Auth.Conf.{SecretField, key_of, application_secret, consumer_key, client_secret}
use ovh_cli.Auth.HostsFile.{TokenField, access_token, refresh_token, token_key}

-- The code of the last character, or the number for the empty text.
last_code : ℕ → String → ℕ
last_code n String.[] = n
last_code n (String.◌∷◌ c s) = last_code (code c) s

last_code-append : (n : ℕ) (s t : String) → last_code n (s <> t) ≡ last_code (last_code n s) t
unfolding last_code
last_code-append n String.[] t = rw nil-append refl
last_code-append n (String.◌∷◌ c s) t = rw cons-append (last_code-append (code c) s t)

token_ends : (n : ℕ) (tf : TokenField) → last_code n (":" <> token_key tf) ≡ 110
unfolding last_code token_key
token_ends n access_token = refl
token_ends n refresh_token = refl

secret_ends : (n : ℕ) (sf : SecretField) → last_code n (":" <> key_of sf) ≢ 110
unfolding last_code key_of
secret_ends n application_secret = omega arith
secret_ends n consumer_key = omega arith
secret_ends n client_secret = omega arith

-- A token's user in the keyring is none of the users of the secrets of ovh.conf, whatever the
-- profile is called.
pub users_apart :
    (region profile : String) (tf : TokenField) (sf : SecretField)
    → (keyring_user region profile (token_key tf) == keyring_user region "default" (key_of sf))
      ≡ false
unfolding keyring_user
users_apart region profile tf sf = ne-test _ _ λ e.
    let e₁ = append_cancel_left ":" _ _ (append_cancel_left region _ _ e) in
    secret_ends (last_code 0 "default") sf (
      sym (last_code-append 0 "default" (":" <> key_of sf))
      ∙ sym (ap (last_code 0) e₁)
      ∙ last_code-append 0 profile (":" <> token_key tf)
      ∙ token_ends (last_code 0 profile) tf)
