-- ===== src/Auth/Conf/Raw.antt =====
-- What `applyCreds` leaves in the INI file: the stored text of every key, and its sections.
use ovh_cli.Prelude.{String, ◌≡◌, refl, ◌∙◌, ap, arith, ◌==◌, ◌&&◌, eq_iff, eq_refl}
use ovh_cli.Prelude.{List, [], ◌∷◌, if◌then◌else◌}
use ovh_cli.Errors.{ok}
use ovh_cli.Effect.{chain-eq-ok}
use ovh_cli.Platform.Ini.{IsLawful}
use ovh_cli.Auth.Credentials.{Credentials}
use ovh_cli.Auth.Keyring.{make_placeholder}
use ovh_cli.Auth.World.{Services}
use ovh_cli.Auth.Conf.{
  SecretField, key_of, get, put_value, set_or_delete, apply_secret, apply_secrets, storage_keyring,
}

-- The text that stands in ovh.conf for a secret.
abbrev pub stored : Credentials → String → SecretField → String
stored c storage sf =
    if get sf c == ""
    then ""
    else if storage == storage_keyring
    then make_placeholder c.region "default" (key_of sf)
    else get sf c

-- The text under a key after the secrets of a list are applied, from the text before.
abbrev pub stored_in : Credentials → String → List SecretField → String → String → String
stored_in c storage [] k old = old
stored_in c storage (sf ∷ fs) k old =
    stored_in c storage fs k (if key_of sf == k then stored c storage sf else old)

module _ (S : Services) (L : IsLawful S.ini) where
  open S use {ini, ring}

  pub raw-put :
      (f : ini.File) (n j v s k : String)
      → ini.raw (put_value S f n j v) s k ≡ (if (n == s) && (j == k) then v else ini.raw f s k)
  unfolding put_value
  raw-put f n j v s k = rw L.raw-set (rw L.raw-key refl)

  pub raw-set_or_delete :
      (f : ini.File) (n j v s k : String)
      → ini.raw (set_or_delete S f n j v) s k ≡ (if (n == s) && (j == k) then v else ini.raw f s k)
  unfolding set_or_delete
  raw-set_or_delete f n j v s k =
      ground (arith, L.raw-delete_key f n j s k, raw-put f n j v s k, eq_iff v "")

  has-put :
      (f : ini.File) (n j v s : String)
      → ini.has_section (put_value S f n j v) s ≡ ini.has_section f s
  unfolding put_value
  has-put f n j v s = rw L.has-set (rw L.has-key refl)

  pub has-set_or_delete :
      (f : ini.File) (n j v s : String)
      → ini.has_section (set_or_delete S f n j v) s ≡ ini.has_section f s
  unfolding set_or_delete
  has-set_or_delete f n j v s = ground (arith, L.has-delete_key f n j s, has-put f n j v s)

  module _ (c : Credentials) (storage : String) where
    -- The library calls that a secret ends in, where none fails.
    pub apply_secret-eq_file :
        (sf : SecretField) (f : ini.File) (s : ring.State) (f' : ini.File) (s' : ring.State)
        → apply_secret S c storage sf f s ≡ (ok f', s')
        → f' ≡ (
            if get sf c == ""
            then ini.delete_key f c.region (key_of sf)
            else put_value S f c.region (key_of sf) (stored c storage sf))
    unfolding apply_secret
    apply_secret-eq_file sf f s f' s' h = ground arith

    raw-apply_secret :
        (sf : SecretField) (f : ini.File) (s : ring.State) (f' : ini.File) (s' : ring.State)
        → apply_secret S c storage sf f s ≡ (ok f', s')
        → (k : String)
        → ini.raw f' c.region k
          ≡ (if key_of sf == k then stored c storage sf else ini.raw f c.region k)
    raw-apply_secret sf f s f' s' h k = rw (apply_secret-eq_file sf f s f' s' h) (
        ground (
          arith,
          L.raw-delete_key f c.region (key_of sf) c.region k,
          raw-put f c.region (key_of sf) (stored c storage sf) c.region k,
          eq_refl c.region,
        ))

    has-apply_secret :
        (sf : SecretField) (f : ini.File) (s : ring.State) (f' : ini.File) (s' : ring.State)
        → apply_secret S c storage sf f s ≡ (ok f', s')
        → (n : String) → ini.has_section f' n ≡ ini.has_section f n
    has-apply_secret sf f s f' s' h n = rw (apply_secret-eq_file sf f s f' s' h) (
        ground (
          arith,
          L.has-delete_key f c.region (key_of sf) n,
          has-put f c.region (key_of sf) (stored c storage sf) n,
        ))

    pub raw-apply_secrets :
        (fs : List SecretField) (f : ini.File) (s : ring.State) (f' : ini.File) (s' : ring.State)
        → apply_secrets S c storage fs f s ≡ (ok f', s')
        → (k : String) → ini.raw f' c.region k ≡ stored_in c storage fs k (ini.raw f c.region k)
    unfolding apply_secrets
    raw-apply_secrets [] f s f' s' h k = ground arith
    raw-apply_secrets (sf ∷ fs) f s f' s' h k =
        let (f₁, s₁, h₁, h₂) = chain-eq-ok (apply_secret S c storage sf f s) _ h in
        raw-apply_secrets fs f₁ s₁ f' s' h₂ k
        ∙ ap (stored_in c storage fs k) (raw-apply_secret sf f s f₁ s₁ h₁ k)

    pub has-apply_secrets :
        (fs : List SecretField) (f : ini.File) (s : ring.State) (f' : ini.File) (s' : ring.State)
        → apply_secrets S c storage fs f s ≡ (ok f', s')
        → (n : String) → ini.has_section f' n ≡ ini.has_section f n
    unfolding apply_secrets
    has-apply_secrets [] f s f' s' h n = ground arith
    has-apply_secrets (sf ∷ fs) f s f' s' h n =
        let (f₁, s₁, h₁, h₂) = chain-eq-ok (apply_secret S c storage sf f s) _ h in
        has-apply_secrets fs f₁ s₁ f' s' h₂ n ∙ has-apply_secret sf f s f₁ s₁ h₁ n
