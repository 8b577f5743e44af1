-- ===== src/Auth/Conf/Secrets.antt =====
-- Reading a secret of ovh.conf: plaintext, and placeholders for the keyring.
use ovh_cli.Prelude.{String, true, false, ◌≡◌, ◌∙◌, sym, ap, subst, arith, ◌==◌}
use ovh_cli.Prelude.{inl, inr, eq_iff, eq_refl, if◌then◌else◌, Bool-cases, has_prefix, ne-test}
use ovh_cli.Errors.{ok}
use ovh_cli.Auth.Credentials.{Credentials}
use ovh_cli.Auth.Keyring.{keyring_user, keyring_get, is_placeholder, make_placeholder}
use ovh_cli.Auth.Keyring.Laws.{is_placeholder-make_placeholder, trim_prefix-make_placeholder}
use ovh_cli.Auth.World.{Services}
use ovh_cli.Auth.Conf.{
  SecretField, key_of, get, set, application_secret, consumer_key, client_secret, resolve_secret,
  read_secret, storage_keyring,
}
use ovh_cli.Auth.Conf.Raw.{stored}

module _ (S : Services) (s : S.ring.State) (region profile key : String) where
  -- A placeholder resolves to what the keyring has under the same tuple.
  pub resolve_secret-make_placeholder :
      resolve_secret S s (make_placeholder region profile key) region profile key
      ≡ keyring_get S.ring s region profile key
  unfolding resolve_secret
  resolve_secret-make_placeholder = ground (
    arith,
    is_placeholder-make_placeholder region profile key,
    trim_prefix-make_placeholder region profile key,
    eq_refl (keyring_user region profile key),
  )

  pub resolve_secret-plain :
      (v : String) → is_placeholder v ≡ false → resolve_secret S s v region profile key ≡ ok v
  unfolding resolve_secret
  resolve_secret-plain v h = rw h

pub make_placeholder-ne-nil :
    (region profile key : String) → (make_placeholder region profile key == "") ≡ false
unfolding is_placeholder has_prefix
make_placeholder-ne-nil region profile key = ne-test _ _ λ e.
    cc (subst (λ t. is_placeholder t ≡ true) e (is_placeholder-make_placeholder region profile key))

set-nil : (sf : SecretField) (c : Credentials) → get sf c ≡ "" → set sf "" c ≡ c
unfolding set get
set-nil application_secret c h = ground arith
set-nil consumer_key c h = ground arith
set-nil client_secret c h = ground arith

module _ (S : Services) (storage : String) (c : Credentials) where
  open S use {ini, ring}

  stored_form :
      (sf : SecretField)
      → (get sf c == "") ≡ false
      → stored c storage sf ≡ (
          if storage == storage_keyring
          then make_placeholder c.region "default" (key_of sf)
          else get sf c)
  stored_form sf e = rw e

  stored-ne-nil :
      (sf : SecretField) → (get sf c == "") ≡ false → (stored c storage sf == "") ≡ false
  stored-ne-nil sf e =
      rw (stored_form sf e) (ground (arith, make_placeholder-ne-nil c.region "default" (key_of sf)))

  resolve_stored :
      (sf : SecretField) (s : ring.State)
      → (get sf c == "") ≡ false
      → ((storage == storage_keyring) ≡ true
          → (get sf c == "") ≡ false
          → keyring_get ring s c.region "default" (key_of sf) ≡ ok (get sf c))
      → ((storage == storage_keyring) ≡ false → is_placeholder (get sf c) ≡ false)
      → resolve_secret S s (stored c storage sf) c.region "default" (key_of sf) ≡ ok (get sf c)
  resolve_stored sf s e hk hp =
      rw (stored_form sf e) (elim (Bool-cases (storage == storage_keyring)) [
        | inl k ↦ rw k (resolve_secret-make_placeholder S s c.region "default" (key_of sf) ∙ hk k e)
        | inr p ↦ rw p (resolve_secret-plain S s c.region "default" (key_of sf) (get sf c) (hp p))
      ])

  -- One secret is read back where the file has its text and the keyring its secret.
  pub read_secret_back :
      (sf : SecretField) (f : ini.File) (s : ring.State) (c₀ : Credentials)
      → ini.value f c.region (key_of sf) ≡ stored c storage sf
      → ((storage == storage_keyring) ≡ true
          → (get sf c == "") ≡ false
          → keyring_get ring s c.region "default" (key_of sf) ≡ ok (get sf c))
      → ((storage == storage_keyring) ≡ false → is_placeholder (get sf c) ≡ false)
      → get sf c₀ ≡ ""
      → read_secret S s f c.region sf c₀ ≡ ok (set sf (get sf c) c₀)
  unfolding read_secret
  read_secret_back sf f s c₀ hv hk hp h₀ = rw hv (elim (Bool-cases (get sf c == "")) [
    | inl e ↦ rw (e, (eq_iff (get sf c) "").0 e) (ap ok (sym (set-nil sf c₀ h₀)))
    | inr e ↦ rw (stored-ne-nil sf e, resolve_stored sf s e hk hp)
  ])
