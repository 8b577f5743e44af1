-- ===== src/Auth/Conf/Kept.antt =====
-- ovh.conf reads the same against two keyrings that agree on its entries.
use ovh_cli.Prelude.{String, Option, none, some, List, [], ◌∷◌, ◌≡◌, refl, arith}
use ovh_cli.Errors.{Result, ok, err, panic, ◌>>=◌}
use ovh_cli.Auth.Credentials.{Credentials}
use ovh_cli.Auth.Keyring.{keyring_get}
use ovh_cli.Auth.World.{Services}
use ovh_cli.Auth.Conf.{
  SecretField, key_of, resolve_secret, read_secret, read_secrets, read_creds_from_conf,
}

pub bind-cong {ℓ} :
    {A B : Type ℓ} (m n : Result A) (f g : A → Result B)
    → m ≡ n
    → ((a : A) → f a ≡ g a)
    → (m >>= f) ≡ (n >>= g)
bind-cong (ok a) n f g e h = rw (← e) (h a)
bind-cong (err x) n f g e h = rw (← e)
bind-cong (panic x) n f g e h = rw (← e)

module _ (S : Services) (s s' : S.ring.State) where
  pub resolve_secret-same :
      (v region profile key : String)
      → keyring_get S.ring s' region profile key ≡ keyring_get S.ring s region profile key
      → resolve_secret S s' v region profile key ≡ resolve_secret S s v region profile key
  unfolding resolve_secret
  resolve_secret-same v region profile key h = ground arith

  module _ (region : String)
      (same : (sf : SecretField)
        → keyring_get S.ring s' region "default" (key_of sf)
          ≡ keyring_get S.ring s region "default" (key_of sf)) where
    read_secret-same :
        (f : S.ini.File) (sf : SecretField) (c : Credentials)
        → read_secret S s' f region sf c ≡ read_secret S s f region sf c
    unfolding read_secret
    read_secret-same f sf c =
        rw
          (resolve_secret-same (S.ini.value f region (key_of sf)) region "default" (key_of sf)
            (same sf))
          refl

    read_secrets-same :
        (f : S.ini.File) (fields : List SecretField) (c : Credentials)
        → read_secrets S s' f region fields c ≡ read_secrets S s f region fields c
    unfolding read_secrets
    read_secrets-same f [] c = refl
    read_secrets-same f (sf ∷ rest) c =
        bind-cong _ _ _ _ (read_secret-same f sf c) (read_secrets-same f rest)

    pub read_creds_from_conf-same :
        (f : Option (S.ini.File × String))
        → read_creds_from_conf S s' f region ≡ read_creds_from_conf S s f region
    unfolding read_creds_from_conf
    read_creds_from_conf-same none = refl
    read_creds_from_conf-same (some (f, p)) = rw read_secrets-same refl
