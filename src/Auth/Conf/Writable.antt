-- ===== src/Auth/Conf/Writable.antt =====
-- The INI files that `applyCreds` makes: those that the library reads back as they were written.
use ovh_cli.Prelude.{String, true, List, [], ◌∷◌, ◌≡◌, refl, arith}
use ovh_cli.Errors.{ok}
use ovh_cli.Effect.{chain-eq-ok}
use ovh_cli.Platform.Ini.{IsLawful, is_plain, is_name}
use ovh_cli.Auth.Credentials.{Credentials}
use ovh_cli.Auth.World.{Services}
use ovh_cli.Auth.Conf.{
  SecretField, application_secret, consumer_key, client_secret, key_of, get, put_value,
  set_or_delete, apply_secret, apply_secrets, apply_creds, secret_fields, touch_storage,
}
use ovh_cli.Auth.Conf.Raw.{stored, apply_secret-eq_file}

-- The region and the texts that a store writes to ovh.conf are plain.
pub record ArePlain (c : Credentials) (storage : String) : Type 0 where
  pub region : is_name c.region ≡ true
  pub method : is_plain c.method ≡ true
  pub application_key : is_plain c.application_key ≡ true
  pub client_id : is_plain c.client_id ≡ true
  pub secrets : (sf : SecretField) → is_plain (stored c storage sf) ≡ true

pub ArePlain-profile :
    (c : Credentials) (storage p : String)
    → ArePlain c storage
    → ArePlain (record c { profile = p }) storage
unfolding get
ArePlain-profile c storage p h = record {
  region = h.region;
  method = h.method;
  application_key = h.application_key;
  client_id = h.client_id;
  secrets = secrets;
}
  where
    secrets : (sf : SecretField) → is_plain (stored (record c { profile = p }) storage sf) ≡ true
    secrets application_secret = h.secrets application_secret
    secrets consumer_key = h.secrets consumer_key
    secrets client_secret = h.secrets client_secret

key_of-name : (sf : SecretField) → is_name (key_of sf) ≡ true
unfolding key_of is_name is_plain
key_of-name application_secret = refl
key_of-name consumer_key = refl
key_of-name client_secret = refl

module _ (S : Services) (L : IsLawful S.ini) where
  open S use {ini, ring}

  put_value-kept :
      (f : ini.File) (n j v : String)
      → ini.is_kept f ≡ true
      → is_name n ≡ true
      → is_name j ≡ true
      → is_plain v ≡ true
      → ini.is_kept (put_value S f n j v) ≡ true
  unfolding put_value
  put_value-kept f n j v h hn hj hv = L.kept-set _ n j v (L.kept-key f n j h hn hj) hn hj hv

  set_or_delete-kept :
      (f : ini.File) (n j v : String)
      → ini.is_kept f ≡ true
      → is_name n ≡ true
      → is_name j ≡ true
      → is_plain v ≡ true
      → ini.is_kept (set_or_delete S f n j v) ≡ true
  unfolding set_or_delete
  set_or_delete-kept f n j v h hn hj hv =
      ground (arith, L.kept-delete_key f n j h, put_value-kept f n j v h hn hj hv)

  touch_storage-kept :
      (f : ini.File) → ini.is_kept f ≡ true → ini.is_kept (touch_storage S f) ≡ true
  unfolding touch_storage is_name is_plain
  touch_storage-kept f h =
      L.kept-key _ "default" "storage" (L.kept-section f "default" h refl) refl refl

  module _ (c : Credentials) (storage : String) (plain : ArePlain c storage) where
    apply_secret-kept_file :
        (sf : SecretField) (f : ini.File) (s : ring.State) (f' : ini.File) (s' : ring.State)
        → apply_secret S c storage sf f s ≡ (ok f', s')
        → ini.is_kept f ≡ true
        → ini.is_kept f' ≡ true
    apply_secret-kept_file sf f s f' s' h k =
        rw (apply_secret-eq_file S L c storage sf f s f' s' h) (
          ground (
            arith,
            L.kept-delete_key f c.region (key_of sf) k,
            put_value-kept f c.region (key_of sf) (stored c storage sf) k plain.region
                (key_of-name sf) (plain.secrets sf),
          ))

    apply_secrets-kept_file :
        (fs : List SecretField) (f : ini.File) (s : ring.State) (f' : ini.File) (s' : ring.State)
        → apply_secrets S c storage fs f s ≡ (ok f', s')
        → ini.is_kept f ≡ true
        → ini.is_kept f' ≡ true
    unfolding apply_secrets
    apply_secrets-kept_file [] f s f' s' h k = ground arith
    apply_secrets-kept_file (sf ∷ fs) f s f' s' h k =
        let (f₁, s₁, h₁, h₂) = chain-eq-ok (apply_secret S c storage sf f s) _ h in
        apply_secrets-kept_file fs f₁ s₁ f' s' h₂ (apply_secret-kept_file sf f s f₁ s₁ h₁ k)

    -- A store makes a file that is kept of one that is.
    pub apply_creds-kept_file :
        (f : ini.File) (s : ring.State) (f' : ini.File) (s' : ring.State)
        → apply_creds S (touch_storage S f) c storage s ≡ (ok f', s')
        → ini.is_kept f ≡ true
        → ini.is_kept f' ≡ true
    unfolding apply_creds is_name is_plain
    apply_creds-kept_file f s f' s' h k = apply_secrets-kept_file secret_fields _ s f' s' h (
        set_or_delete-kept _ c.region "client_id" c.client_id
          (set_or_delete-kept _ c.region "application_key" c.application_key
            (set_or_delete-kept _ c.region "auth_method" c.method
              (L.kept-section _ c.region (touch_storage-kept f k) plain.region) plain.region refl
              plain.method)
            plain.region refl plain.application_key)
          plain.region refl plain.client_id)
