-- ===== src/Auth/Conf/Others.antt =====
-- What `applyCreds` leaves of the other regions, in the INI file and in the keyring.
use ovh_cli.Prelude.{String, true, false, some, List, [], ◌∷◌, ◌≡◌, refl, ◌∙◌, sym, arith, ◌==◌}
use ovh_cli.Errors.{ok}
use ovh_cli.Effect.{chain-eq-ok}
use ovh_cli.Platform.Ini.{IsLawful}
use ovh_cli.Platform.Keyring.{IsKeyed}
use ovh_cli.Auth.Credentials.{Credentials}
use ovh_cli.Auth.Keyring.{keyring_user, keyring_get}
use ovh_cli.Auth.World.{Services}
use ovh_cli.Auth.Conf.{
  SecretField, key_of, get, set_or_delete, apply_secret, apply_secrets, apply_creds, secret_fields,
  touch_storage, read_secret, read_secrets, read_creds_from_conf,
}
use ovh_cli.Auth.Conf.Kept.{bind-cong}
use ovh_cli.Auth.Conf.Raw.{
  stored, raw-put, apply_secret-eq_file, raw-set_or_delete, has-set_or_delete, has-apply_secrets,
}
use ovh_cli.Auth.HostsFile.Tokens.{keyring_set-IsKept, keyring_delete-IsKept}

module _ (S : Services) (L : IsLawful S.ini) where
  open S use {ini, ring}

  -- The section of a region is the same in both files.
  pub record IsSameSection (f f' : ini.File) (region : String) : Type 0 where
    pub present : ini.has_section f' region ≡ ini.has_section f region
    pub values : (k : String) → ini.value f' region k ≡ ini.value f region k

  read_secrets-section :
      (f f' : ini.File) (region : String) (s : ring.State) (fields : List SecretField)
      (c : Credentials)
      → IsSameSection f f' region
      → read_secrets S s f' region fields c ≡ read_secrets S s f region fields c
  unfolding read_secrets read_secret
  read_secrets-section f f' region s [] c h = refl
  read_secrets-section f f' region s (sf ∷ rest) c h =
      bind-cong _ _ _ _ (rw (h.values (key_of sf)) refl)
        (λ c₁. read_secrets-section f f' region s rest c₁ h)

  pub read_creds_from_conf-section :
      (f f' : ini.File) (path path' region : String) (s : ring.State)
      → IsSameSection f f' region
      → read_creds_from_conf S s (some (f', path')) region
        ≡ read_creds_from_conf S s (some (f, path)) region
  unfolding read_creds_from_conf
  read_creds_from_conf-section f f' path path' region s h =
      rw
        (
          h.present,
          read_secrets-section f f' region s secret_fields _ h,
          h.values "application_key",
          h.values "client_id",
          h.values "auth_method",
        )
        refl

  module _ (c : Credentials) (other : String) (apart : (c.region == other) ≡ false) where
    raw-set_or_delete_other :
        (f : ini.File) (key v k : String)
        → ini.raw (set_or_delete S f c.region key v) other k ≡ ini.raw f other k
    raw-set_or_delete_other f key v k =
        ground (arith, raw-set_or_delete S L f c.region key v other k)

    raw-apply_secret_other :
        (storage : String) (sf : SecretField) (f : ini.File) (s : ring.State) (f' : ini.File)
        (s' : ring.State)
        → apply_secret S c storage sf f s ≡ (ok f', s')
        → (k : String) → ini.raw f' other k ≡ ini.raw f other k
    raw-apply_secret_other storage sf f s f' s' h k =
        rw (apply_secret-eq_file S L c storage sf f s f' s' h) (
          ground (
            arith,
            L.raw-delete_key f c.region (key_of sf) other k,
            raw-put S L f c.region (key_of sf) (stored c storage sf) other k,
          ))

    raw-apply_secrets_other :
        (storage : String) (fs : List SecretField) (f : ini.File) (s : ring.State) (f' : ini.File)
        (s' : ring.State)
        → apply_secrets S c storage fs f s ≡ (ok f', s')
        → (k : String) → ini.raw f' other k ≡ ini.raw f other k
    unfolding apply_secrets
    raw-apply_secrets_other storage [] f s f' s' h k = ground arith
    raw-apply_secrets_other storage (sf ∷ fs) f s f' s' h k =
        let (f₁, s₁, h₁, h₂) = chain-eq-ok (apply_secret S c storage sf f s) _ h in
        raw-apply_secrets_other storage fs f₁ s₁ f' s' h₂ k
        ∙ raw-apply_secret_other storage sf f s f₁ s₁ h₁ k

    -- The stored texts of another region are those from before, and its section is there or not as
    -- before.
    raw-apply_creds_other :
        (f : ini.File) (storage : String) (s : ring.State) (f' : ini.File) (s' : ring.State)
        → apply_creds S (touch_storage S f) c storage s ≡ (ok f', s')
        → ("default" == other) ≡ false
        → ((k : String) → ini.raw f' other k ≡ ini.raw f other k)
          × (ini.has_section f' other ≡ ini.has_section f other)
    unfolding apply_creds touch_storage
    raw-apply_creds_other f storage s f' s' h ne = (
      λ k.
          raw-apply_secrets_other storage secret_fields _ s f' s' h k
          ∙ raw-set_or_delete_other _ "client_id" _ k
          ∙ raw-set_or_delete_other _ "application_key" _ k
          ∙ raw-set_or_delete_other _ "auth_method" _ k
          ∙ L.raw-section _ _ _ _
          ∙ L.raw-key _ _ _ _ _
          ∙ L.raw-section _ _ _ _,
      has-apply_secrets S L c storage secret_fields _ s f' s' h other
          ∙ has-set_or_delete S L _ _ _ _ _
          ∙ has-set_or_delete S L _ _ _ _ _
          ∙ has-set_or_delete S L _ _ _ _ _
          ∙ L.has-section _ _ _
          ∙ rw (apart, L.has-key, L.has-section, ne) refl,
    )

    pub apply_creds-IsSameSection :
        (f : ini.File) (storage : String) (s : ring.State) (f' : ini.File) (s' : ring.State)
        → apply_creds S (touch_storage S f) c storage s ≡ (ok f', s')
        → ("default" == other) ≡ false
        → ((k : String) → ini.is_verbatim (ini.raw f other k) ≡ true)
        → IsSameSection f f' other
    apply_creds-IsSameSection f storage s f' s' h ne plain =
        let (same, present) = raw-apply_creds_other f storage s f' s' h ne in
        record {
          present = present;
          values = λ k.
              L.value_lem f' other k (rw (same k) (plain k))
              ∙ same k
              ∙ sym (L.value_lem f other k (plain k));
        }

module _ (S : Services) (K : IsKeyed S.ring) (c : Credentials) (storage : String) where
  open S use {ini, ring}

  apply_secret-kept :
      (sf : SecretField) (f : ini.File) (s : ring.State) (f' : ini.File) (s' : ring.State)
      → apply_secret S c storage sf f s ≡ (ok f', s')
      → (region profile key : String)
      → (keyring_user c.region "default" (key_of sf) == keyring_user region profile key) ≡ false
      → keyring_get ring s' region profile key ≡ keyring_get ring s region profile key
  unfolding apply_secret
  apply_secret-kept sf f s f' s' h region profile key ne = ground (
    arith,
    keyring_set-IsKept S K c.region "default" (key_of sf) (get sf c) s region profile key ne,
    keyring_delete-IsKept S K c.region "default" (key_of sf) s region profile key ne,
  )

  apply_secrets-kept :
      (fs : List SecretField) (f : ini.File) (s : ring.State) (f' : ini.File) (s' : ring.State)
      → apply_secrets S c storage fs f s ≡ (ok f', s')
      → (region profile key : String)
      → ((sf : SecretField)
          → (keyring_user c.region "default" (key_of sf) == keyring_user region profile key)
            ≡ false)
      → keyring_get ring s' region profile key ≡ keyring_get ring s region profile key
  unfolding apply_secrets
  apply_secrets-kept [] f s f' s' h region profile key ne = ground arith
  apply_secrets-kept (sf ∷ fs) f s f' s' h region profile key ne =
      let (f₁, s₁, h₁, h₂) = chain-eq-ok (apply_secret S c storage sf f s) _ h in
      apply_secrets-kept fs f₁ s₁ f' s' h₂ region profile key ne
      ∙ apply_secret-kept sf f s f₁ s₁ h₁ region profile key (ne sf)

  -- The entries of other users are as before.
  pub apply_creds-kept :
      (f : ini.File) (s : ring.State) (f' : ini.File) (s' : ring.State)
      → apply_creds S f c storage s ≡ (ok f', s')
      → (region profile key : String)
      → ((sf : SecretField)
          → (keyring_user c.region "default" (key_of sf) == keyring_user region profile key)
            ≡ false)
      → keyring_get ring s' region profile key ≡ keyring_get ring s region profile key
  unfolding apply_creds
  apply_creds-kept f s f' s' h = apply_secrets-kept secret_fields _ s f' s' h
