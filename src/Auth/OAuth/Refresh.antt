-- ===== src/Auth/OAuth/Refresh.antt =====
-- What a refresh leaves for the next load.
use ovh_cli.Prelude.{String, true, Option, none, some, ◌==◌, ◌≡◌, ◌≢◌, refl, ◌∙◌, sym, ap, subst}
use ovh_cli.Prelude.{arith, eq_iff, Bool-cases, ◌⊎◌, inl, inr}
use ovh_cli.Errors.{Error, Result, ok, err, panic, ◌>>=◌, bind_inversion, wrap_err, wrap_err-eq-ok}
use ovh_cli.Effect.{chain_lift-eq-ok}
use ovh_cli.Platform.Disk.{IsAtomic}
use ovh_cli.Platform.Keyring.{IsKeyed}
use ovh_cli.Platform.Ini.{IsLawful}
use ovh_cli.Platform.Codec.{IsFaithful}
use ovh_cli.Auth.Credentials.{Credentials, is_zero, method_oauth2}
use ovh_cli.Auth.Regions.{Region, region_by_id, validate_host}
use ovh_cli.Auth.World.{Services, World}
use ovh_cli.Auth.Store.{
  is_known, or_default, has_session, read_env, load_credentials, store_credentials,
}
use ovh_cli.Auth.Store.Loaded.{load_credentials-head}
use ovh_cli.Auth.Store.RoundTrip.{StorableIn, KeptIn}
use ovh_cli.Auth.Store.Session.{IsHostsCanonical, TokensStorableIn, load_credentials-store_session}
use ovh_cli.Auth.Conf.Files.{IsCanonical}
use ovh_cli.Auth.OAuth.{
  TokenServices, Token, resolve_token_endpoint, with_token, renewed, refresh_known, refresh_once,
  stored_as,
}
use ovh_cli.Auth.OAuth.Laws.{resolve_token_endpoint-valid}

module _ (T : TokenServices) where
  -- The token behind renewed credentials.
  pub record Renewal (region : Region) (old c : Credentials) : Type 0 where
    pub url : String
    pub valid : validate_host T.parse_url url region.validation_host_pattern ≡ ok tt
    pub tok : Token
    pub given : T.renew url old.refresh_token ≡ ok tok
    pub had_token : old.refresh_token ≢ ""
    pub new : c ≡ with_token tok old

  renewed-Renewal :
      (region : Region) (old c : Credentials) → renewed T region old ≡ ok c → Renewal region old c
  unfolding renewed
  renewed-Renewal region old c h = elim (Bool-cases (old.refresh_token == "")) [
    | inl e ↦ absurd (failing (rw e at h))
    | inr e ↦
        let (url, found, r) = bind_inversion (resolve_token_endpoint T region) _ (rw e at h) in
        let (tok, x, same) = bind_inversion (wrap_err _ _ (T.renew url old.refresh_token)) _ r in
        record {
          url = url;
          valid = resolve_token_endpoint-valid T region url found;
          tok = tok;
          given = wrap_err-eq-ok _ _ _ tok x;
          had_token = ground (arith, eq_iff old.refresh_token "");
          new = cc;
        }
  ]
    where
      failing : {e : Error} → ◌≡◌ {A = Result Credentials} (err e) (ok c) → ⊥
      failing q = cc

  module _ (S : Services) where
    -- The steps of a refresh that succeeds.
    pub record Refreshed (region profile : String) (w : World S) (c : Credentials) (w' : World S)
        : Type 0 where
      pub known : is_known region ≡ true
      pub in_registry : Region
      pub registered : region_by_id region ≡ some in_registry
      pub old : Credentials
      pub loaded : load_credentials S w region profile ≡ ok old
      pub renewal : Renewal in_registry old c
      pub stored : store_credentials S region profile c w ≡ (ok tt, w')

    stored_as-eq-ok :
        (c c' : Credentials) (r : Result (Unit {0}) × World S) (w' : World S)
        → stored_as T S c r ≡ (ok c', w')
        → (c ≡ c') × (r ≡ (ok tt, w'))
    unfolding stored_as
    stored_as-eq-ok c c' (ok tt, w) w' h = (ground arith, ground arith)
    stored_as-eq-ok c c' (err e, w) w' h = ground arith
    stored_as-eq-ok c c' (panic m, w) w' h = ground arith

    refresh_known-Refreshed :
        (r : Region) (region profile : String) (w : World S) (c : Credentials) (w' : World S)
        → region_by_id region ≡ some r
        → refresh_known T S r region profile w ≡ (ok c, w')
        → Refreshed region profile w c w'
    unfolding refresh_known is_known
    refresh_known-Refreshed r region profile w c w' found h =
        let (c₁, h₁, r₁) =
          chain_lift-eq-ok (load_credentials S w region profile >>= renewed T r) w _ h in
        let (old, h₂, h₃) = bind_inversion (load_credentials S w region profile) (renewed T r) h₁ in
        let (same, stored) = stored_as-eq-ok c₁ c (store_credentials S region profile c₁ w) w' r₁ in
        record {
          known = rw (found, is_known);
          in_registry = r;
          registered = found;
          old = old;
          loaded = h₂;
          renewal = subst (Renewal r old) same (renewed-Renewal r old c₁ h₃);
          stored = subst (λ x. store_credentials S region profile x w ≡ (ok tt, w')) same stored;
        }

    -- A refresh that succeeds had credentials with a refresh token, sent that token to an endpoint
    -- that passed the check of its host, and stored what it returns: the loaded credentials with the
    -- new access token and expiry, and the new refresh token if there is one.
    pub refresh_once-Refreshed :
        (region profile : String) (w : World S) (c : Credentials) (w' : World S)
        → refresh_once T S region profile w ≡ (ok c, w')
        → Refreshed region profile w c w'
    unfolding refresh_once
    refresh_once-Refreshed region profile w c w' h = by_region (region_by_id region) refl
      where
        by_region : (o : Option Region) → region_by_id region ≡ o → Refreshed region profile w c w'
        by_region none e = ground arith
        by_region (some r) e = refresh_known-Refreshed r region profile w c w' e (ground arith)

-- The credentials that a refresh returns are those of a session.
refreshed-session :
    (old c : Credentials) (tok : Token)
    → c ≡ with_token tok old
    → old.refresh_token ≢ ""
    → old.method ≡ method_oauth2
    → (c.method ≡ method_oauth2) × (c.profile ≡ old.profile) × (has_session c ≡ true)
unfolding has_session
refreshed-session old c tok e token m =
    subst (λ x. (x.method ≡ method_oauth2) × (x.profile ≡ old.profile) × (has_session x ≡ true))
      (sym e)
      (
        m,
        refl,
        ground (
          arith,
          eq_iff old.refresh_token "",
          eq_iff tok.refresh_token "",
          eq_iff old.method method_oauth2,
        ),
      )

module _ (T : TokenServices) (S : Services) (A : IsAtomic S.disk) (L : IsLawful S.ini)
    (K : IsKeyed S.ring) (Y : IsFaithful S.yaml) where
  -- After a refresh that succeeded, a load of the same region and profile gives exactly the
  -- credentials that the refresh returned, if the environment holds none, ovh.conf and hosts.yml are
  -- where a load looks for them, the texts are storable, the INI library reads back what it
  -- writes of the ovh.conf that the store starts from, and the region and the texts that the store
  -- adds to it are plain.
  pub load_credentials-refresh_once :
      (region profile : String) (c : Credentials) (w w' : World S)
      → refresh_once T S region profile w ≡ (ok c, w')
      → is_zero (read_env w.env region) ≡ true
      → IsCanonical S w
      → IsHostsCanonical S w
      → StorableIn S w c
      → KeptIn S w c
      → TokensStorableIn S w c
      → load_credentials S w' region profile ≡ ok c
  load_credentials-refresh_once region profile c w w' h he C H ready kept plain =
      let done = refresh_once-Refreshed T S region profile w c w' h in
      let (at_profile, is_session) =
        load_credentials-head S w region profile done.old done.loaded in
      let (m, p, hs) =
        refreshed-session done.old c done.renewal.tok done.renewal.new done.renewal.had_token
          (session_method done.old is_session done.renewal.had_token) in
      load_credentials-store_session S A L K Y region profile c w w' done.stored done.known he C H
        ready kept plain m hs
      ∙ ap ok (named c (or_default profile) (p ∙ at_profile))
    where
      session_method :
          (old : Credentials)
          → (old.refresh_token ≡ "") ⊎ (old.method ≡ method_oauth2)
          → old.refresh_token ≢ ""
          → old.method ≡ method_oauth2
      session_method old (inl e) token = absurd (token e)
      session_method old (inr m) token = m

      named : (x : Credentials) (q : String) → x.profile ≡ q → record x { profile = q } ≡ x
      named x q e = ground arith
