-- ===== src/Auth/Conf/RoundTrip.antt =====
-- `readCredsFromConf` after `applyCreds` gives the credentials back.
use ovh_cli.Prelude.{String, true, false, ◌≡◌, refl, ◌∙◌, ap, ◌==◌}
use ovh_cli.Prelude.{◌⊎◌, inl, inr, eq_refl, if◌then◌else◌, some}
use ovh_cli.Errors.{ok}
use ovh_cli.Platform.Ini.{IsLawful}
use ovh_cli.Platform.Keyring.{IsKeyed}
use ovh_cli.Auth.Credentials.{
  Credentials, Method, zero_credentials, method_consumer_key, method_oauth2,
}
use ovh_cli.Auth.Keyring.{keyring_get, is_placeholder}
use ovh_cli.Auth.World.{Services}
use ovh_cli.Auth.Conf.{
  SecretField, key_of, get, set, secret_fields, application_secret, consumer_key, client_secret,
  read_secret, read_creds_from_conf, choose_method, apply_creds, storage_keyring,
}
use ovh_cli.Auth.Conf.Raw.{
  stored, stored_in, raw-set_or_delete, has-set_or_delete, raw-apply_secrets, has-apply_secrets,
}
use ovh_cli.Auth.Conf.Secrets.{read_secret_back}
use ovh_cli.Auth.Conf.Ring.{get-apply_secrets_if}

-- The part of credentials that ovh.conf and the keyring keep.
unfoldable pub application_part : Credentials → Credentials
application_part c = record zero_credentials {
  region = c.region;
  profile = "default";
  method = c.method;
  application_key = c.application_key;
  application_secret = c.application_secret;
  consumer_key = c.consumer_key;
  client_id = c.client_id;
  client_secret = c.client_secret;
}

-- What the INI library and the placeholder grammar ask of credentials: a named method, texts
-- without references to other keys, and in plaintext storage no secret that looks like a
-- placeholder.
pub record IsStorable (S : Services) (storage : String) (c : Credentials) : Type 0 where
  pub named : (c.method ≡ method_consumer_key) ⊎ (c.method ≡ method_oauth2)
  pub method_verbatim : S.ini.is_verbatim c.method ≡ true
  pub key_verbatim : S.ini.is_verbatim c.application_key ≡ true
  pub id_verbatim : S.ini.is_verbatim c.client_id ≡ true
  pub secret_verbatim : (sf : SecretField) → S.ini.is_verbatim (stored c storage sf) ≡ true
  pub no_placeholder :
      (sf : SecretField) → (storage == storage_keyring) ≡ false → is_placeholder (get sf c) ≡ false

choose_method-named :
    (m : Method) (c : Credentials)
    → (m ≡ method_consumer_key) ⊎ (m ≡ method_oauth2)
    → choose_method m c ≡ record c { method = m }
unfolding choose_method
choose_method-named m c (inl e) = rw e
choose_method-named m c (inr e) = rw e

stored-profile :
    (c : Credentials) (p storage : String) (sf : SecretField)
    → stored (record c { profile = p }) storage sf ≡ stored c storage sf
unfolding get
stored-profile c p storage application_secret = refl
stored-profile c p storage consumer_key = refl
stored-profile c p storage client_secret = refl

get-profile :
    (c : Credentials) (p : String) (sf : SecretField) → get sf (record c { profile = p }) ≡ get sf c
unfolding get
get-profile c p application_secret = refl
get-profile c p consumer_key = refl
get-profile c p client_secret = refl

pub IsStorable-profile :
    (S : Services) (storage p : String) (c : Credentials)
    → IsStorable S storage c
    → IsStorable S storage (record c { profile = p })
IsStorable-profile S storage p c r = record {
  named = r.named;
  method_verbatim = r.method_verbatim;
  key_verbatim = r.key_verbatim;
  id_verbatim = r.id_verbatim;
  secret_verbatim = λ sf. rw stored-profile (r.secret_verbatim sf);
  no_placeholder = λ sf h. rw get-profile (r.no_placeholder sf h);
}

module _ (S : Services) (L : IsLawful S.ini) (storage : String) (c : Credentials) where
  open S use {ini, ring}

  -- A key of the section after `applyCreds`, from the INI file before.
  raw-apply_creds :
      (f : ini.File) (s : ring.State) (f' : ini.File) (s' : ring.State)
      → apply_creds S f c storage s ≡ (ok f', s')
      → (k : String)
      → ini.raw f' c.region k
        ≡ stored_in c storage secret_fields k (
            if "client_id" == k
            then c.client_id
            else if "application_key" == k
            then c.application_key
            else if "auth_method" == k
            then c.method
            else ini.raw f c.region k)
  unfolding apply_creds
  raw-apply_creds f s f' s' h k =
      raw-apply_secrets S L c storage secret_fields _ s f' s' h k
      ∙ ap (stored_in c storage secret_fields k) (
          rw raw-set_or_delete
            (rw raw-set_or_delete (rw raw-set_or_delete (rw (eq_refl, L.raw-section)))))

  has-apply_creds :
      (f : ini.File) (s : ring.State) (f' : ini.File) (s' : ring.State)
      → apply_creds S f c storage s ≡ (ok f', s')
      → ini.has_section f' c.region ≡ true
  unfolding apply_creds
  has-apply_creds f s f' s' h =
      has-apply_secrets S L c storage secret_fields _ s f' s' h c.region
      ∙ rw has-set_or_delete
          (rw has-set_or_delete (rw has-set_or_delete (rw (L.has-section, eq_refl) refl)))

  value_of_raw :
      (f : ini.File) (k v : String)
      → ini.raw f c.region k ≡ v
      → ini.is_verbatim v ≡ true
      → ini.value f c.region k ≡ v
  value_of_raw f k v e verbatim = L.value_lem f c.region k (rw e verbatim) ∙ e

  module _ (K : IsKeyed ring) (ready : IsStorable S storage c) (f : ini.File) (s : ring.State)
      (f' : ini.File) (s' : ring.State) (applied : apply_creds S f c storage s ≡ (ok f', s')) where
    kept_in_ring :
        (sf : SecretField)
        → (storage == storage_keyring) ≡ true
        → (get sf c == "") ≡ false
        → keyring_get ring s' c.region "default" (key_of sf) ≡ ok (get sf c)
    unfolding apply_creds
    kept_in_ring sf keyring filled =
        get-apply_secrets_if S K c storage sf _ s f' s' keyring applied filled

    value-secret : (sf : SecretField) → ini.value f' c.region (key_of sf) ≡ stored c storage sf
    unfolding key_of
    value-secret application_secret =
        value_of_raw f' _ _ (raw-apply_creds f s f' s' applied _)
          (ready.secret_verbatim application_secret)
    value-secret consumer_key =
        value_of_raw f' _ _ (raw-apply_creds f s f' s' applied _)
          (ready.secret_verbatim consumer_key)
    value-secret client_secret =
        value_of_raw f' _ _ (raw-apply_creds f s f' s' applied _)
          (ready.secret_verbatim client_secret)

    value-auth_method : ini.value f' c.region "auth_method" ≡ c.method
    unfolding key_of
    value-auth_method =
        value_of_raw f' _ _ (raw-apply_creds f s f' s' applied _) ready.method_verbatim

    value-application_key : ini.value f' c.region "application_key" ≡ c.application_key
    unfolding key_of
    value-application_key =
        value_of_raw f' _ _ (raw-apply_creds f s f' s' applied _) ready.key_verbatim

    value-client_id : ini.value f' c.region "client_id" ≡ c.client_id
    unfolding key_of
    value-client_id = value_of_raw f' _ _ (raw-apply_creds f s f' s' applied _) ready.id_verbatim

    read_back :
        (sf : SecretField) (c₀ : Credentials)
        → get sf c₀ ≡ ""
        → read_secret S s' f' c.region sf c₀ ≡ ok (set sf (get sf c) c₀)
    read_back sf c₀ h₀ =
        read_secret_back S storage c sf f' s' c₀ (value-secret sf) (kept_in_ring sf)
          (ready.no_placeholder sf) h₀

    abbrev start : Credentials
    start = record zero_credentials {
      region = c.region;
      profile = "default";
      application_key = c.application_key;
      client_id = c.client_id;
    }

    pub read_creds_from_conf-apply_creds :
        (path : String)
        → read_creds_from_conf S s' (some (f', path)) c.region ≡ ok (application_part c)
    unfolding read_creds_from_conf application_part set get
    read_creds_from_conf-apply_creds path =
        rw (has-apply_creds f s f' s' applied, value-application_key, value-client_id)
          (rw
            (
              read_back application_secret start refl,
              read_back consumer_key (set application_secret c.application_secret start) refl,
              read_back client_secret
                  (set consumer_key c.consumer_key
                    (set application_secret c.application_secret start))
                  refl,
              value-auth_method,
            )
            (ap ok (choose_method-named _ _ ready.named)))
