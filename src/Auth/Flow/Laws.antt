-- ===== src/Auth/Flow/Laws.antt =====
-- What the flow opens in the browser, and what it returns.
use ovh_cli.Prelude.{String, Bool, true, false, List, [], ◌∷◌, ◌++◌, ◌≡◌, ◌≢◌, refl}
use ovh_cli.Prelude.{◌⊎◌, inl, inr, ◌==◌, arith, eq_iff, Bool-cases, ap, subst, if◌then◌else◌}
use ovh_cli.Errors.{Result, ok, err, panic, wrap_err, wrap_err-eq-ok, ◌>>=◌, bind_inversion}
use ovh_cli.Effect.{Effect, chain, chain-eq-ok, chain_lift-eq-ok}
use ovh_cli.Auth.Credentials.{Credentials}
use ovh_cli.Auth.Regions.{Region, validate_host}
use ovh_cli.Auth.Flow.{
  FlowServices, User, Session, CredentialResponse, default_rules, poll_fuel, default_flow_timeout,
  post_auth_credential, ask, open_browser, ask_again, ask_after_portal, run_with_keys,
  run_consumer_key_flow, validated, both_given, consumer_credentials,
}
use ovh_cli.Auth.Store.RoundTrip.{IsClassic}
use ovh_cli.Auth.Flow.Poll.{Polling, poll_until_validated}
use ovh_cli.Auth.Flow.Poll.Laws.{IsAccepted, poll_until_validated-IsAccepted}

abbrev pub All : (String → Type 0) → List String → Type 0
All P [] = Unit
All P (u ∷ l) = P u × All P l

All-snoc :
    (P : String → Type 0) (l : List String) (u : String) → All P l → P u → All P (l ++ u ∷ [])
All-snoc P [] u h k = (k, tt)
All-snoc P (v ∷ l) u h k = (h.0, All-snoc P l u h.1 k)

module _ (F : FlowServices) (U : User) (region : Region) where
  -- The region's page for new applications, or a URL on one of its hosts.
  abbrev pub IsSafe : String → Type 0
  IsSafe u =
      (u ≡ region.portal_create_app_url)
      ⊎ (validate_host F.parse_url u region.validation_host_pattern ≡ ok tt)

  abbrev OpenedSafe : Session → Type 0
  OpenedSafe s = All IsSafe s.opened

  -- A step that opened safe pages only, followed by steps that do so where it returned.
  chain-OpenedSafe :
      {A B : Type 0} (p : Result A × Session) (f : A → Effect Session B)
      → OpenedSafe p.1
      → ((a : A) → p.0 ≡ ok a → OpenedSafe (f a p.1).1)
      → OpenedSafe (chain p f).1
  chain-OpenedSafe (ok a, s) f h k = k a refl
  chain-OpenedSafe (err e, s) f h k = h
  chain-OpenedSafe (panic m, s) f h k = h

  open_browser-OpenedSafe :
      (format url : String) (s : Session)
      → IsSafe url
      → OpenedSafe s
      → OpenedSafe (open_browser F U format url s).1
  unfolding open_browser
  open_browser-OpenedSafe format url s h k = All-snoc IsSafe s.opened url k h

  ask-OpenedSafe : (s : Session) → OpenedSafe s → OpenedSafe (ask F U s).1
  unfolding ask
  ask-OpenedSafe s h = h

  ask_after_portal-OpenedSafe :
      (keys : String × String) (nothing : Bool) (s : Session)
      → OpenedSafe s
      → OpenedSafe (ask_after_portal F U region keys nothing s).1
  unfolding ask_after_portal
  ask_after_portal-OpenedSafe keys true s h =
      let safe =
        open_browser-OpenedSafe "auth: open portal: %w" region.portal_create_app_url s (inl refl)
          h in
      chain-OpenedSafe (open_browser F U _ region.portal_create_app_url s) _ safe
        (λ _ _. ask-OpenedSafe _ safe)
  ask_after_portal-OpenedSafe keys false s h = h

  run_with_keys-OpenedSafe :
      (profile : String) (keys : String × String) (s : Session)
      → OpenedSafe s
      → OpenedSafe (run_with_keys F U region profile keys s).1
  unfolding run_with_keys
  run_with_keys-OpenedSafe profile keys s h =
      chain-OpenedSafe (both_given F U keys, s) _ h
        λ _ _.
          chain-OpenedSafe (post_auth_credential F region keys.0 default_rules, s) _ h
            λ response _.
              chain-OpenedSafe
                (
                  wrap_err "auth: validation URL rejected: %w" [] (
                      validate_host F.parse_url response.validation_url
                        region.validation_host_pattern),
                  s,
                )
                _ h
                λ _ e.
                  let safe =
                    open_browser-OpenedSafe "auth: open validation URL: %w" response.validation_url
                      s (inr (wrap_err-eq-ok _ _ _ tt e)) h in
                  chain-OpenedSafe (open_browser F U _ response.validation_url s) _ safe
                    (λ _ _. safe)

  asked : (s : Session) → OpenedSafe s → OpenedSafe (chain (ask F U s) (ask_again F U region)).1
  unfolding ask_again
  asked s h =
      chain-OpenedSafe (ask F U s) _ (ask-OpenedSafe s h)
        (λ keys _. ask_after_portal-OpenedSafe _ _ _ (ask-OpenedSafe s h))

  -- If every page that was opened before is the region's page for new applications or a URL that
  -- passes the check of its host, then so is every page that is open after the flow, also where the
  -- flow fails.
  pub run_consumer_key_flow-opens :
      (profile : String) (s : Session)
      → OpenedSafe s
      → OpenedSafe (run_consumer_key_flow F U region profile s).1
  unfolding run_consumer_key_flow
  run_consumer_key_flow-opens profile s h = elim (Bool-cases (region.id == "")) [
    | inl e ↦ rw e h
    | inr e ↦ rw e (
        chain-OpenedSafe (chain (ask F U s) (ask_again F U region)) _ (asked s h)
          (λ keys _. run_with_keys-OpenedSafe _ keys _ (asked s h)))
  ]

-- What a flow that succeeds returns: credentials of the classic flow for the region and profile,
-- with three keys that are not empty, under which OVH accepted a request.
pub record IsValidated (F : FlowServices) (region : Region) (profile : String) (c : Credentials)
    : Type 1 where
  pub region_id : c.region ≡ region.id
  pub profile_kept : c.profile ≡ profile
  pub key_given : c.application_key ≢ ""
  pub secret_given : c.application_secret ≢ ""
  pub consumer_key_given : c.consumer_key ≢ ""
  pub classic : IsClassic c
  pub polling : Polling
  pub signed :
      F.new_client region.endpoint_url c.application_key c.application_secret c.consumer_key
      ≡ ok polling
  pub accepted : IsAccepted polling

module _ (F : FlowServices) (U : User) (region : Region) where
  post_auth_credential-consumer_key :
      (key : String) (response : CredentialResponse)
      → post_auth_credential F region key default_rules ≡ ok response
      → response.consumer_key ≢ ""
  unfolding post_auth_credential
  post_auth_credential-consumer_key key response h = ground (arith, eq_iff response.consumer_key "")

  panicked :
      (s s' : Session) (c : Credentials)
      → ◌≡◌ {A = Result Credentials × Session}
          (panic "auth.RunConsumerKeyFlow: empty Region (PRD-03 pre-condition)", s)
          (ok c, s')
      → ⊥
  panicked s s' c h = cc

  both_given-ne-nil :
      (ak secret : String) → both_given F U (ak, secret) ≡ ok tt → (ak ≢ "") × (secret ≢ "")
  both_given-ne-nil ak secret h = ground (arith, eq_iff ak "", eq_iff secret "")

  validated-IsValidated :
      (profile : String) (keys : String × String) (response : CredentialResponse) (c : Credentials)
      → both_given F U keys ≡ ok tt
      → response.consumer_key ≢ ""
      → validated F U region profile keys response ≡ ok c
      → IsValidated F region profile c
  unfolding validated
  validated-IsValidated profile (ak, secret) response c given ck h =
      let (_, polled, returned) =
        bind_inversion
          (wrap_err "auth: build go-ovh client: %w" []
              (F.new_client region.endpoint_url ak secret response.consumer_key)
            >>= λ P. poll_until_validated P poll_fuel default_flow_timeout)
          _ h in
      let (P, client, accepted) =
        bind_inversion
          (wrap_err "auth: build go-ovh client: %w" []
            (F.new_client region.endpoint_url ak secret response.consumer_key))
          _ polled in
      let (ak_given, secret_given) = both_given-ne-nil ak secret given in
      let made : ok (consumer_credentials region profile (ak, secret) response) ≡ ok c = returned in
      let same : consumer_credentials region profile (ak, secret) response ≡ c = cc in
      subst (IsValidated F region profile) same (record {
        region_id = refl;
        profile_kept = refl;
        key_given = ak_given;
        secret_given = secret_given;
        consumer_key_given = ck;
        classic = record { method = refl; no_access = refl; no_refresh = refl; no_expiry = refl };
        polling = P;
        signed = wrap_err-eq-ok _ _ _ P client;
        accepted = poll_until_validated-IsAccepted P _ _ accepted;
      })

  run_with_keys-IsValidated :
      (profile : String) (keys : String × String) (c : Credentials) (s s' : Session)
      → run_with_keys F U region profile keys s ≡ (ok c, s')
      → IsValidated F region profile c
  unfolding run_with_keys
  run_with_keys-IsValidated profile keys c s s' h =
      let (_, given, h₁) = chain_lift-eq-ok (both_given F U keys) s _ h in
      let (response, posted, h₂) =
        chain_lift-eq-ok (post_auth_credential F region keys.0 default_rules) s _ h₁ in
      let (_, _, h₃) =
        chain_lift-eq-ok
          (wrap_err _ _
            (validate_host F.parse_url response.validation_url region.validation_host_pattern))
          s _ h₂ in
      let (_, s₁, _, h₄) = chain-eq-ok (open_browser F U _ response.validation_url s) _ h₃ in
      validated-IsValidated profile keys response c given
        (post_auth_credential-consumer_key keys.0 response posted) (ap (λ r. r.0) h₄)

  -- A flow that succeeds returns credentials of the classic flow for the region and the profile, or
  -- `default` for none, with an application key, a secret and a consumer key that are not empty, and
  -- a request that was signed with them has been accepted.
  pub run_consumer_key_flow-IsValidated :
      (profile : String) (c : Credentials) (s s' : Session)
      → run_consumer_key_flow F U region profile s ≡ (ok c, s')
      → IsValidated F region (if profile == "" then "default" else profile) c
  unfolding run_consumer_key_flow
  run_consumer_key_flow-IsValidated profile c s s' h = elim (Bool-cases (region.id == "")) [
    | inl e ↦ absurd (panicked s s' c (rw e at h))
    | inr e ↦
        let (keys, s₁, _, r) =
          chain-eq-ok (chain (ask F U s) (ask_again F U region)) _ (rw e at h) in
        run_with_keys-IsValidated _ keys c s₁ s' r
  ]
