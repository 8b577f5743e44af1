-- ===== src/Auth/Conf/Ring.antt =====
-- What `applyCreds` leaves in the keyring: each secret under its own account.
use ovh_cli.Prelude.{String, true, false, ◌≡◌, ◌≢◌, ◌∙◌, arith, ◌==◌}
use ovh_cli.Prelude.{eq_iff, eq_of_test, subst}
use ovh_cli.Errors.{ok}
use ovh_cli.Effect.{chain-eq-ok}
use ovh_cli.Platform.Keyring.{IsKeyed}
use ovh_cli.Auth.Credentials.{Credentials}
use ovh_cli.Auth.Keyring.{keyring_get}
use ovh_cli.Auth.Keyring.Laws.{keyring_get-set, keyring_get-set_ne, keyring_get-delete_ne}
use ovh_cli.Auth.World.{Services}
use ovh_cli.Auth.Conf.{
  SecretField, key_of, get, apply_secret, apply_secrets, storage_keyring, secret_fields,
  application_secret, consumer_key, client_secret,
}

consumer-ne-application : key_of consumer_key ≢ key_of application_secret
unfolding key_of
consumer-ne-application = ground (arith, eq_iff "consumer_key" "application_secret")

client-ne-application : key_of client_secret ≢ key_of application_secret
unfolding key_of
client-ne-application = ground (arith, eq_iff "client_secret" "application_secret")

client-ne-consumer : key_of client_secret ≢ key_of consumer_key
unfolding key_of
client-ne-consumer = ground (arith, eq_iff "client_secret" "consumer_key")

module _ (S : Services) (L : IsKeyed S.ring) (c : Credentials) where
  open S use {ini, ring}

  -- A secret that is kept in the keyring is read back from it.
  get-apply_secret :
      (sf : SecretField) (f : ini.File) (s : ring.State) (f' : ini.File) (s' : ring.State)
      → apply_secret S c storage_keyring sf f s ≡ (ok f', s')
      → (get sf c == "") ≡ false
      → keyring_get ring s' c.region "default" (key_of sf) ≡ ok (get sf c)
  unfolding apply_secret
  get-apply_secret sf f s f' s' h e =
      ground (arith, keyring_get-set ring L s c.region "default" (key_of sf) (get sf c) s')

  get-apply_secret_ne :
      (storage : String) (sf : SecretField) (f : ini.File) (s : ring.State) (f' : ini.File)
      (s' : ring.State)
      → apply_secret S c storage sf f s ≡ (ok f', s')
      → (k : String) → key_of sf ≢ k
      → keyring_get ring s' c.region "default" k ≡ keyring_get ring s c.region "default" k
  unfolding apply_secret
  get-apply_secret_ne storage sf f s f' s' h k ne = ground (
    arith,
    keyring_get-set_ne ring L s c.region "default" (key_of sf) (get sf c) k ne,
    keyring_get-delete_ne ring L s c.region "default" (key_of sf) k ne,
  )

  three_steps :
      (storage : String) (f : ini.File) (s : ring.State) (f' : ini.File) (s' : ring.State)
      → apply_secrets S c storage secret_fields f s ≡ (ok f', s')
      → (f₁ : ini.File) × (s₁ : ring.State) × (f₂ : ini.File) × (s₂ : ring.State) × (apply_secret S
            c storage application_secret f s
          ≡ (ok f₁, s₁))
        × (apply_secret S c storage consumer_key f₁ s₁ ≡ (ok f₂, s₂))
        × (apply_secret S c storage client_secret f₂ s₂ ≡ (ok f', s'))
  unfolding apply_secrets
  three_steps storage f s f' s' h =
      let (f₁, s₁, h₁, r₁) = chain-eq-ok (apply_secret S c storage application_secret f s) _ h in
      let (f₂, s₂, h₂, r₂) = chain-eq-ok (apply_secret S c storage consumer_key f₁ s₁) _ r₁ in
      let (f₃, s₃, h₃, r₃) = chain-eq-ok (apply_secret S c storage client_secret f₂ s₂) _ r₂ in
      (f₁, s₁, f₂, s₂, h₁, h₂, h₃ ∙ r₃)

  -- After all secrets are applied, each that is kept in the keyring is read back from it.
  get-apply_secrets :
      (sf : SecretField) (f : ini.File) (s : ring.State) (f' : ini.File) (s' : ring.State)
      → apply_secrets S c storage_keyring secret_fields f s ≡ (ok f', s')
      → (get sf c == "") ≡ false
      → keyring_get ring s' c.region "default" (key_of sf) ≡ ok (get sf c)
  unfolding key_of
  get-apply_secrets application_secret f s f' s' h e =
      let (f₁, s₁, f₂, s₂, h₁, h₂, h₃) = three_steps storage_keyring f s f' s' h in
      get-apply_secret_ne storage_keyring client_secret f₂ s₂ f' s' h₃ _ client-ne-application
      ∙ get-apply_secret_ne storage_keyring consumer_key f₁ s₁ f₂ s₂ h₂ _ consumer-ne-application
      ∙ get-apply_secret application_secret f s f₁ s₁ h₁ e
  get-apply_secrets consumer_key f s f' s' h e =
      let (f₁, s₁, f₂, s₂, h₁, h₂, h₃) = three_steps storage_keyring f s f' s' h in
      get-apply_secret_ne storage_keyring client_secret f₂ s₂ f' s' h₃ _ client-ne-consumer
      ∙ get-apply_secret consumer_key f₁ s₁ f₂ s₂ h₂ e
  get-apply_secrets client_secret f s f' s' h e =
      let (f₁, s₁, f₂, s₂, h₁, h₂, h₃) = three_steps storage_keyring f s f' s' h in
      get-apply_secret client_secret f₂ s₂ f' s' h₃ e

  pub get-apply_secrets_if :
      (storage : String) (sf : SecretField) (f : ini.File) (s : ring.State) (f' : ini.File)
      (s' : ring.State)
      → (storage == storage_keyring) ≡ true
      → apply_secrets S c storage secret_fields f s ≡ (ok f', s')
      → (get sf c == "") ≡ false
      → keyring_get ring s' c.region "default" (key_of sf) ≡ ok (get sf c)
  get-apply_secrets_if storage sf f s f' s' keyring h e =
      get-apply_secrets sf f s f' s'
        (subst (λ mode. apply_secrets S c mode secret_fields f s ≡ (ok f', s'))
          (eq_of_test storage storage_keyring keyring) h)
        e
