-- ===== src/Auth/HostsFile/Tokens.antt =====
-- The tokens of a session: what is written to the profile and the keyring is read back.
use ovh_cli.Prelude.{String, true, false, ◌≡◌, ◌≢◌, refl, sym, ◌∙◌, ap, arith, ◌==◌}
use ovh_cli.Prelude.{eq_iff, Bool-cases, inl, inr, if◌then◌else◌}
use ovh_cli.Errors.{ok}
use ovh_cli.Effect.{chain-eq-ok}
use ovh_cli.Platform.Keyring.{IsKeyed}
use ovh_cli.Auth.Credentials.{Credentials}
use ovh_cli.Auth.Hosts.{HostProfile}
use ovh_cli.Auth.Keyring.{
  keyring_service, keyring_user, keyring_get, keyring_set, keyring_delete, is_placeholder,
  make_placeholder,
}
use ovh_cli.Auth.Keyring.Laws.{keyring_get-set, keyring_user-ne}
use ovh_cli.Auth.World.{Services}
use ovh_cli.Auth.Conf.{storage_keyring}
use ovh_cli.Auth.Conf.Secrets.{
  resolve_secret-make_placeholder, resolve_secret-plain, make_placeholder-ne-nil,
}
use ovh_cli.Auth.HostsFile.{
  TokenField, access_token, refresh_token, token_key, token_of, set_token, stored_token, put_token,
  apply_token, apply_tokens, read_token,
}

-- What stands for a token in the file.
abbrev pub token_form : Credentials → String → TokenField → String
token_form c storage tf =
    if token_of tf c == ""
    then ""
    else if storage == storage_keyring
    then make_placeholder c.region c.profile (token_key tf)
    else token_of tf c

stored-put :
    (tf : TokenField) (v : String) (p : HostProfile) → stored_token tf (put_token tf v p) ≡ v
unfolding stored_token put_token
stored-put access_token v p = refl
stored-put refresh_token v p = refl

-- The keys of the two tokens.
access-ne-refresh : token_key refresh_token ≢ token_key access_token
unfolding token_key
access-ne-refresh = ground (arith, eq_iff "refresh_token" "access_token")

set_token-nil : (tf : TokenField) (c : Credentials) → token_of tf c ≡ "" → set_token tf "" c ≡ c
unfolding set_token token_of
set_token-nil access_token c h = ground arith
set_token-nil refresh_token c h = ground arith

module _ (S : Services) (K : IsKeyed S.ring) where
  open S use {ring}

  -- The entries of the keyring under another user.
  abbrev pub IsKept : ring.State → ring.State → String → Type 0
  IsKept s s' user =
      (region profile key : String)
      → (user == keyring_user region profile key) ≡ false
      → keyring_get ring s' region profile key ≡ keyring_get ring s region profile key

  pub keyring_set-IsKept :
      (region profile key value : String) (s : ring.State)
      → IsKept s (keyring_set ring region profile key value s).1 (keyring_user region profile key)
  unfolding keyring_set keyring_get
  keyring_set-IsKept region profile key value s r p k ne = ground (
    arith,
    K.get-set_ne s keyring_service (keyring_user region profile key) value (keyring_user r p k),
  )

  pub keyring_delete-IsKept :
      (region profile key : String) (s : ring.State)
      → IsKept s (keyring_delete ring region profile key s).1 (keyring_user region profile key)
  unfolding keyring_delete keyring_get
  keyring_delete-IsKept region profile key s r p k ne = ground (
    arith,
    K.get-delete_ne s keyring_service (keyring_user region profile key) (keyring_user r p k),
  )

  module _ (c : Credentials) (storage : String) where
    apply_token-IsKept :
        (tf : TokenField) (p : HostProfile) (s : ring.State) (p' : HostProfile) (s' : ring.State)
        → apply_token S c storage tf p s ≡ (ok p', s')
        → IsKept s s' (keyring_user c.region c.profile (token_key tf))
    unfolding apply_token
    apply_token-IsKept tf p s p' s' h r q k ne = ground (
      arith,
      keyring_set-IsKept c.region c.profile (token_key tf) (token_of tf c) s r q k ne,
      keyring_delete-IsKept c.region c.profile (token_key tf) s r q k ne,
    )

    -- The profile after a step holds the token's form and is otherwise as before.
    apply_token-put :
        (tf : TokenField) (p : HostProfile) (s : ring.State) (p' : HostProfile) (s' : ring.State)
        → apply_token S c storage tf p s ≡ (ok p', s')
        → p' ≡ put_token tf (token_form c storage tf) p
    unfolding apply_token
    apply_token-put tf p s p' s' h = ground arith

    apply_token-get :
        (tf : TokenField) (p : HostProfile) (s : ring.State) (p' : HostProfile) (s' : ring.State)
        → apply_token S c storage tf p s ≡ (ok p', s')
        → (storage == storage_keyring) ≡ true
        → (token_of tf c == "") ≡ false
        → keyring_get ring s' c.region c.profile (token_key tf) ≡ ok (token_of tf c)
    unfolding apply_token
    apply_token-get tf p s p' s' h k e =
        ground
          (arith, keyring_get-set ring K s c.region c.profile (token_key tf) (token_of tf c) s')

    -- What the two steps leave.
    pub record Applied (p : HostProfile) (s : ring.State) (p' : HostProfile) (s' : ring.State)
        : Type 0 where
      pub form : (tf : TokenField) → stored_token tf p' ≡ token_form c storage tf
      pub kept_in_ring :
          (tf : TokenField)
          → (storage == storage_keyring) ≡ true
          → (token_of tf c == "") ≡ false
          → keyring_get ring s' c.region c.profile (token_key tf) ≡ ok (token_of tf c)
      pub others :
          (r q k : String)
          → ((tf : TokenField)
              → (keyring_user c.region c.profile (token_key tf) == keyring_user r q k) ≡ false)
          → keyring_get ring s' r q k ≡ keyring_get ring s r q k

    both_forms :
        (p p₁ p' : HostProfile)
        → p₁ ≡ put_token access_token (token_form c storage access_token) p
        → p' ≡ put_token refresh_token (token_form c storage refresh_token) p₁
        → (tf : TokenField) → stored_token tf p' ≡ token_form c storage tf
    unfolding stored_token put_token
    both_forms p p₁ p' e₁ e₂ access_token = ground arith
    both_forms p p₁ p' e₁ e₂ refresh_token = ground arith

    both_kept :
        (p : HostProfile) (s : ring.State) (p₁ : HostProfile) (s₁ : ring.State) (p' : HostProfile)
        (s' : ring.State)
        → apply_token S c storage access_token p s ≡ (ok p₁, s₁)
        → apply_token S c storage refresh_token p₁ s₁ ≡ (ok p', s')
        → (tf : TokenField) → (storage == storage_keyring) ≡ true
        → (token_of tf c == "") ≡ false
        → keyring_get ring s' c.region c.profile (token_key tf) ≡ ok (token_of tf c)
    both_kept p s p₁ s₁ p' s' h₁ h₂ access_token k e =
        apply_token-IsKept refresh_token p₁ s₁ p' s' h₂ c.region c.profile (token_key access_token)
          (keyring_user-ne c.region c.profile _ _ access-ne-refresh)
        ∙ apply_token-get access_token p s p₁ s₁ h₁ k e
    both_kept p s p₁ s₁ p' s' h₁ h₂ refresh_token k e =
        apply_token-get refresh_token p₁ s₁ p' s' h₂ k e

    pub apply_tokens-Applied :
        (p : HostProfile) (s : ring.State) (p' : HostProfile) (s' : ring.State)
        → apply_tokens S c storage p s ≡ (ok p', s')
        → Applied p s p' s'
    unfolding apply_tokens
    apply_tokens-Applied p s p' s' h =
        let (p₁, s₁, h₁, r₁) = chain-eq-ok (apply_token S c storage access_token p s) _ h in
        let e₁ = apply_token-put access_token p s p₁ s₁ h₁ in
        let e₂ = apply_token-put refresh_token p₁ s₁ p' s' r₁ in
        record {
          form = both_forms p p₁ p' e₁ e₂;
          kept_in_ring = both_kept p s p₁ s₁ p' s' h₁ r₁;
          others = λ r q k ne.
              apply_token-IsKept refresh_token p₁ s₁ p' s' r₁ r q k (ne refresh_token)
              ∙ apply_token-IsKept access_token p s p₁ s₁ h₁ r q k (ne access_token);
        }

    -- The profile holds both tokens' forms and is otherwise as before.
    pub apply_tokens-put :
        (p : HostProfile) (s : ring.State) (p' : HostProfile) (s' : ring.State)
        → apply_tokens S c storage p s ≡ (ok p', s')
        → p' ≡ record p {
          access_token = token_form c storage access_token;
          refresh_token = token_form c storage refresh_token;
        }
    unfolding apply_tokens put_token
    apply_tokens-put p s p' s' h =
        let (p₁, s₁, h₁, r₁) = chain-eq-ok (apply_token S c storage access_token p s) _ h in
        let e₁ = apply_token-put access_token p s p₁ s₁ h₁ in
        let e₂ = apply_token-put refresh_token p₁ s₁ p' s' r₁ in
        e₂
        ∙ ap (λ (q : HostProfile). record q { refresh_token = token_form c storage refresh_token })
            e₁

    -- A token's form is read back as the token.
    pub read_token-form :
        (tf : TokenField) (p : HostProfile) (s : ring.State) (c₀ : Credentials)
        → stored_token tf p ≡ token_form c storage tf
        → ((storage == storage_keyring) ≡ true
            → (token_of tf c == "") ≡ false
            → keyring_get ring s c.region c.profile (token_key tf) ≡ ok (token_of tf c))
        → ((storage == storage_keyring) ≡ false → is_placeholder (token_of tf c) ≡ false)
        → token_of tf c₀ ≡ ""
        → read_token S s p c.region c.profile tf c₀ ≡ ok (set_token tf (token_of tf c) c₀)
    unfolding read_token
    read_token-form tf p s c₀ form kept plain empty = elim (Bool-cases (token_of tf c == "")) [
      | inl e ↦
          let none_stored : stored_token tf p ≡ "" = form ∙ rw e in
          rw (none_stored, (eq_iff (token_of tf c) "").0 e)
            (ap ok (sym (set_token-nil tf c₀ empty)))
      | inr e ↦ elim (Bool-cases (storage == storage_keyring)) [
        | inl k ↦
            let placed : stored_token tf p ≡ make_placeholder c.region c.profile (token_key tf) =
              form ∙ rw (e, k) in
            rw (
              placed,
              make_placeholder-ne-nil c.region c.profile (token_key tf),
              resolve_secret-make_placeholder S s c.region c.profile (token_key tf),
              kept k e,
            )
        | inr k ↦
            let same : stored_token tf p ≡ token_of tf c = form ∙ rw (e, k) in
            rw (
              same,
              e,
              resolve_secret-plain S s c.region c.profile (token_key tf) (token_of tf c) (plain k),
            )
      ]
    ]
