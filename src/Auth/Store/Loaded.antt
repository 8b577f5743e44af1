-- ===== src/Auth/Store/Loaded.antt =====
-- What every load returns: the profile that was asked for, and a session only for OAuth2.
use ovh_cli.Prelude.{
  String, not, Option, some, none, List, [], ◌∷◌, ◌≡◌, refl, sym, ◌∙◌, ap, arith, ◌==◌, eq_of_test,
  Bool-cases, ◌⊎◌, inl, inr, if◌then◌else◌,
}
use ovh_cli.Errors.{ok, ◌>>=◌, bind_inversion, ensure}
use ovh_cli.Auth.Credentials.{Credentials, Method, is_zero, method_oauth2, zero_credentials}
use ovh_cli.Auth.World.{Services, World}
use ovh_cli.Auth.Hosts.{HostProfile}
use ovh_cli.Auth.Conf.{
  SecretField, key_of, set, application_secret, consumer_key, client_secret, secret_fields,
  resolve_secret, read_secret, read_secrets, read_creds_from_conf, load_default_conf, choose_method,
  infer_method,
}
use ovh_cli.Auth.HostsFile.{
  TokenField, access_token, refresh_token, set_token, read_token, read_profile, read_hosts_creds,
  entry_of, load_hosts_yml,
}
use ovh_cli.Auth.Store.{load_stored, load_credentials, read_env, or_default, merged}

set-refresh :
    (sf : SecretField) (v : String) (c : Credentials) → (set sf v c).refresh_token ≡ c.refresh_token
unfolding set
set-refresh application_secret v c = refl
set-refresh consumer_key v c = refl
set-refresh client_secret v c = refl

choose_method-refresh :
    (m : Method) (c : Credentials) → c.refresh_token ≡ "" → (choose_method m c).refresh_token ≡ ""
unfolding choose_method infer_method
choose_method-refresh m c h = ground arith

read_env-refresh :
    (env : String → String) (region : String) → (read_env env region).refresh_token ≡ ""
unfolding read_env infer_method
read_env-refresh env region = ground arith

module _ (S : Services) where
  open S use {ini, ring}

  read_secret-refresh :
      (s : ring.State) (f : ini.File) (region : String) (sf : SecretField) (c c' : Credentials)
      → read_secret S s f region sf c ≡ ok c'
      → c'.refresh_token ≡ c.refresh_token
  unfolding read_secret
  read_secret-refresh s f region sf c c' h =
      elim (Bool-cases (ini.value f region (key_of sf) == "")) [
        | inl e ↦ let q : c ≡ c' = ground arith in ap (λ x. x.refresh_token) (sym q)
        | inr e ↦
            let (v, _, q) =
              bind_inversion
                (resolve_secret S s (ini.value f region (key_of sf)) region "default" (key_of sf))
                (λ resolved. ok (set sf resolved c)) (rw e at h) in
            let q' : set sf v c ≡ c' = cc in ap (λ x. x.refresh_token) (sym q') ∙ set-refresh sf v c
      ]

  read_secrets-refresh :
      (s : ring.State) (f : ini.File) (region : String) (fields : List SecretField)
      (c c' : Credentials)
      → read_secrets S s f region fields c ≡ ok c'
      → c'.refresh_token ≡ c.refresh_token
  unfolding read_secrets
  read_secrets-refresh s f region [] c c' h =
      let q : c ≡ c' = cc in ap (λ x. x.refresh_token) (sym q)
  read_secrets-refresh s f region (sf ∷ rest) c c' h =
      let (c₁, h₁, h₂) =
        bind_inversion (read_secret S s f region sf c) (read_secrets S s f region rest) h in
      read_secrets-refresh s f region rest c₁ c' h₂ ∙ read_secret-refresh s f region sf c c₁ h₁

  -- ovh.conf holds no session.
  read_creds_from_conf-refresh :
      (s : ring.State) (f : Option (ini.File × String)) (region : String) (c : Credentials)
      → read_creds_from_conf S s f region ≡ ok c
      → c.refresh_token ≡ ""
  unfolding read_creds_from_conf
  read_creds_from_conf-refresh s none region c h = ground arith
  read_creds_from_conf-refresh s (some (f, p)) region c h =
      elim (Bool-cases (ini.has_section f region)) [
        | inl e ↦
            let (c₁, h₁, h₂) =
              bind_inversion (read_secrets S s f region secret_fields _) _ (rw e at h) in
            let same : choose_method (ini.value f region "auth_method") c₁ ≡ c = cc in
            ap (λ x. x.refresh_token) (sym same)
            ∙ choose_method-refresh (ini.value f region "auth_method") c₁
                (read_secrets-refresh s f region secret_fields _ c₁ h₁)
        | inr e ↦
            let same : zero_credentials ≡ c = ground arith in ap (λ x. x.refresh_token) (sym same)
      ]

  read_token-head :
      (s : ring.State) (p : HostProfile) (region profile : String) (tf : TokenField)
      (c c' : Credentials)
      → read_token S s p region profile tf c ≡ ok c'
      → (c'.method ≡ c.method) × (c'.profile ≡ c.profile)
  unfolding read_token set_token
  read_token-head s p region profile access_token c c' h = ground arith
  read_token-head s p region profile refresh_token c c' h = ground arith

  -- A session changes neither the method nor the profile.
  read_profile-head :
      (s : ring.State) (c : Credentials) (region profile : String) (entry : Option HostProfile)
      (found : Option Credentials)
      → read_profile S s c region profile entry ≡ ok found
      → ((merged S c found).method ≡ c.method) × ((merged S c found).profile ≡ c.profile)
  unfolding read_profile
  read_profile-head s c region profile none found h = ground arith
  read_profile-head s c region profile (some p) found h =
      let (c₁, h₁, r₁) = bind_inversion (read_token S s p region profile access_token c) _ h in
      let (c₂, h₂, r₂) = bind_inversion (read_token S s p region profile refresh_token c₁) _ r₁ in
      let e₁ = read_token-head s p region profile access_token c c₁ h₁ in
      let e₂ = read_token-head s p region profile refresh_token c₁ c₂ h₂ in ground arith

  read_hosts_creds-head :
      (w : World S) (c : Credentials) (region profile : String) (found : Option Credentials)
      → read_hosts_creds S w c region profile ≡ ok found
      → ((merged S c found).method ≡ c.method) × ((merged S c found).profile ≡ c.profile)
  unfolding read_hosts_creds
  read_hosts_creds-head w c region profile found h =
      let (hf, _, r) = bind_inversion (load_hosts_yml S w.files) _ h in
      read_profile-head w.secrets c region profile (entry_of S hf region profile) found r

  with_session-head :
      (w : World S) (region profile : String) (c₀ c : Credentials)
      → c₀.refresh_token ≡ ""
      → (if c₀.method == method_oauth2
          then (read_hosts_creds S w (record c₀ { profile = profile }) region profile >>= λ found.
              ok (merged S (record c₀ { profile = profile }) found))
          else ok (record c₀ { profile = profile }))
        ≡ ok c
      → (c.profile ≡ profile) × ((c.refresh_token ≡ "") ⊎ (c.method ≡ method_oauth2))
  with_session-head w region profile c₀ c none_there h =
      elim (Bool-cases (c₀.method == method_oauth2)) [
        | inl e ↦
            let (found, h₁, r) =
              bind_inversion (read_hosts_creds S w (record c₀ { profile = profile }) region profile)
                _ (rw e at h) in
            let same : merged S (record c₀ { profile = profile }) found ≡ c = cc in
            let (m, p) =
              read_hosts_creds-head w (record c₀ { profile = profile }) region profile found h₁ in
            (
              ap (λ x. x.profile) (sym same) ∙ p,
              inr (ap (λ x. x.method) (sym same) ∙ m ∙ eq_of_test c₀.method method_oauth2 e),
            )
        | inr e ↦
            let same : record c₀ { profile = profile } ≡ c = ground arith in
            (
              ap (λ x. x.profile) (sym same),
              inl (ap (λ x. x.refresh_token) (sym same) ∙ none_there),
            )
      ]

  load_stored-head :
      (w : World S) (region profile : String) (c : Credentials)
      → load_stored S w region profile ≡ ok c
      → (c.profile ≡ profile) × ((c.refresh_token ≡ "") ⊎ (c.method ≡ method_oauth2))
  unfolding load_stored
  load_stored-head w region profile c h =
      let (f, h₁, r₁) = bind_inversion (load_default_conf S w) _ h in
      let (c₀, h₂, r₂) = bind_inversion (read_creds_from_conf S w.secrets f region) _ r₁ in
      let (_, _, r₃) = bind_inversion (ensure (not (is_zero c₀)) _) _ r₂ in
      with_session-head w region profile c₀ c
        (read_creds_from_conf-refresh w.secrets f region c₀ h₂) r₃

  -- A load gives the profile that was asked for, or `default` for none, and credentials with a
  -- refresh token are those of an OAuth2 session.
  pub load_credentials-head :
      (w : World S) (region profile : String) (c : Credentials)
      → load_credentials S w region profile ≡ ok c
      → (c.profile ≡ or_default profile) × ((c.refresh_token ≡ "") ⊎ (c.method ≡ method_oauth2))
  unfolding load_credentials
  load_credentials-head w region profile c h =
      elim (Bool-cases (not (is_zero (read_env w.env region)))) [
        | inl e ↦
            let same : record (read_env w.env region) { profile = or_default profile } ≡ c =
              ground arith in
            (
              ap (λ x. x.profile) (sym same),
              inl (ap (λ x. x.refresh_token) (sym same) ∙ read_env-refresh w.env region),
            )
        | inr e ↦ load_stored-head w region (or_default profile) c (ground arith)
      ]
