-- ===== src/Auth/OAuth.antt =====
-- internal/auth/oauth.go: proof keys, the token endpoint, and exchanging and refreshing tokens.
pub mod Laws
pub mod Flights
pub mod Refresh
use ovh_cli.Prelude.{
  ℕ, String, ◌<>◌, ◌*◌, Bool, true, false, Option, none, some, List, [], ◌∷◌, ◌++◌, ◌==◌, eqb,
}
use ovh_cli.Prelude.{if◌then◌else◌}
use ovh_cli.Errors.{Answer, answered, unanswered, to_result}
use ovh_cli.Errors.{
  Error, Result, ok, err, panic, ◌>>=◌, ◌>>◌, wrap_err, errorf, sentinel, credentials_expired,
}
use ovh_cli.Effect.{Effect, chain}
use ovh_cli.Auth.Credentials.{Credentials, Time, zero_credentials, method_oauth2}
use ovh_cli.Auth.Regions.{Region, Url, validate_host, region_by_id}
use ovh_cli.Auth.World.{Services, World}
use ovh_cli.Auth.Store.{or_default, load_credentials, store_credentials}

abbrev pub pkce_verifier_bytes : ℕ
pkce_verifier_bytes = 32

abbrev pub state_bytes : ℕ
state_bytes = 32

-- `rand.Read` of so many bytes, `base64.RawURLEncoding`, SHA-256, the bytes of a text, and
-- `Error()`.
pub record Crypto : Type 1 where
  pub Bytes : Type 0
  pub read : ℕ → Result Bytes
  pub encode : Bytes → String
  pub sha256 : Bytes → Bytes
  pub bytes_of : String → Bytes
  pub error_text : Error → String

module _ (C : Crypto) where
  -- `rand.Read` with a panic for its error.
  random : String → ℕ → Result C.Bytes
  random message n = elim (C.read n) [
    | ok b ↦ ok b
    | err e ↦ panic (message <> C.error_text e)
    | panic m ↦ panic m
  ]

  -- The verifier and its challenge.
  unfoldable pub new_pkce : Result (String × String)
  unfolding random
  new_pkce = random "auth.NewPKCE: rand.Read failed: " pkce_verifier_bytes >>= λ b.
      let verifier = C.encode b in ok (verifier, C.encode (C.sha256 (C.bytes_of verifier)))

  unfoldable pub random_state : Result String
  unfolding random
  random_state = random "auth.RandomState: rand.Read failed: " state_bytes >>= λ b. ok (C.encode b)

pub record Token : Type 0 where
  pub access_token : String
  pub refresh_token : String
  pub expiry : Time

pub record Discovery (Bytes : Type 0) : Type 0 where
  pub status : ℕ
  pub body : Bytes

-- `url.Parse` and `url.JoinPath`; a GET request; the field `token_endpoint` of at most so many bytes
-- of a body; and golang.org/x/oauth2 at a token endpoint: the exchange of a code, with the redirect
-- URL and the verifier, and the refresh of a token.
pub record TokenServices : Type 1 where
  pub Bytes : Type 0
  pub parse_url : String → Result Url
  pub join_path : String → String → Answer String
  pub get : String → Answer (Discovery Bytes)
  pub decode_endpoint : ℕ → Bytes → Answer String
  pub exchange : String → String → String → String → Result Token
  pub renew : String → String → Result Token

-- The key of a refresh in `refreshGroup`.
abbrev pub flight_key : String → String → String
flight_key region profile = region <> (":" <> profile)

-- `if err != nil { return "", false }`
abbrev pub to_option : {A : Type 0} → Answer A → Option A
to_option (answered a) = some a
to_option (unanswered e) = none

abbrev pub or_none {ℓ} : {A B : Type ℓ} → Option A → (A → Option B) → Option B
or_none none f = none
or_none (some a) f = f a

-- A request for a token that was sent with a code. The requests that net/http makes when it follows
-- a redirect are not among these.
pub record CodeRequest : Type 0 where
  pub url : String
  pub redirect_uri : String
  pub code : String
  pub verifier : String

-- The credentials that a token for a code makes.
abbrev pub granted : Region → Token → Credentials
granted region tok = record zero_credentials {
  region = region.id;
  profile = "default";
  method = method_oauth2;
  access_token = tok.access_token;
  refresh_token = tok.refresh_token;
  expiry = tok.expiry;
}

-- The credentials with a new token; a response without a refresh token keeps the old one.
abbrev pub with_token : Token → Credentials → Credentials
with_token tok creds = record creds {
  access_token = tok.access_token;
  refresh_token = if tok.refresh_token == "" then creds.refresh_token else tok.refresh_token;
  expiry = tok.expiry;
}

module _ (T : TokenServices) where
  endpoint_in : Discovery T.Bytes → Option String
  endpoint_in resp =
      if eqb resp.status 200
      then or_none (to_option (T.decode_endpoint (1024 * 1024) resp.body))
          (λ found. if found == "" then none else some found)
      else none

  -- `tryOIDCDiscovery`
  unfoldable pub try_oidc_discovery : String → Option String
  unfolding endpoint_in
  try_oidc_discovery issuer =
      or_none (to_option (T.join_path issuer "/.well-known/openid-configuration"))
        λ target. or_none (to_option (T.get target)) endpoint_in

  unfoldable pub endpoint_or_fallback : Region → Option String → Result String
  endpoint_or_fallback region (some discovered) =
      wrap_err "auth: discovered token_endpoint %q failed host validation: %w" (discovered ∷ [])
        (validate_host T.parse_url discovered region.validation_host_pattern)
      >> ok discovered
  endpoint_or_fallback region none =
      wrap_err "auth: build token URL: %w" []
        (to_result (T.join_path region.oauth2_issuer "/token"))
      >>= λ fallback.
          wrap_err "auth: token endpoint %q failed host validation: %w" (fallback ∷ [])
            (validate_host T.parse_url fallback region.validation_host_pattern)
          >> ok fallback

  unfoldable pub resolve_token_endpoint : Region → Result String
  unfolding endpoint_or_fallback
  resolve_token_endpoint region =
      if region.oauth2_issuer == ""
      then err (errorf "auth: region %q has no OAuth2Issuer" (region.id ∷ []))
      else endpoint_or_fallback region (try_oidc_discovery region.oauth2_issuer)

  -- `cfg.Exchange`: the request is sent, whatever comes back.
  unfoldable pub send_code : CodeRequest → Effect (List CodeRequest) Token
  send_code q sent = (
    wrap_err "auth: token exchange: %w" [] (T.exchange q.url q.redirect_uri q.code q.verifier),
    sent ++ q ∷ [],
  )

  unfoldable pub exchange_pkce :
      Region → String → String → String → Effect (List CodeRequest) Credentials
  unfolding send_code
  exchange_pkce region code verifier redirect_uri sent =
      chain (resolve_token_endpoint region, sent)
        λ token_url s.
          chain
            (send_code
              (record {
                url = token_url;
                redirect_uri = redirect_uri;
                code = code;
                verifier = verifier;
              })
              s)
            λ tok s'. (ok (granted region tok), s')

  unfoldable pub renewed : Region → Credentials → Result Credentials
  renewed region creds =
      if creds.refresh_token == "" then err (sentinel credentials_expired) else do
        token_url ← resolve_token_endpoint region
        tok ← wrap_err "auth: oauth2 refresh: %w" [] (T.renew token_url creds.refresh_token)
        ok (with_token tok creds)

  module _ (S : Services) where
    unfoldable pub stored_as :
        Credentials → Result (Unit {0}) × World S → Result Credentials × World S
    stored_as creds (r, w) = (wrap_err "auth: store refreshed creds: %w" [] r >> ok creds, w)

    unfoldable pub refresh_known : Region → String → String → Effect (World S) Credentials
    unfolding stored_as
    refresh_known r region profile w =
        chain (load_credentials S w region profile >>= renewed r, w)
          λ creds w₁. stored_as creds (store_credentials S region profile creds w₁)

    unfoldable pub refresh_once : String → String → Effect (World S) Credentials
    unfolding refresh_known
    refresh_once region profile w = elim (region_by_id region) [
      | none ↦ (err (errorf "auth: unknown region %q" (region ∷ [])), w)
      | some r ↦ refresh_known r region profile w
    ]

    -- What `refreshGroup.Do` gives: the result of a call with the same key that is under way, if
    -- there is one, or a call of its own.
    abbrev pub shared :
        Option (Result Credentials) → Effect (World S) Credentials → Effect (World S) Credentials
    shared none call w = call w
    shared (some r) call w = (r, w)

    unfoldable pub refresh_oauth2 :
        (String → Option (Result Credentials)) → String → String → Effect (World S) Credentials
    refresh_oauth2 under_way region profile w =
        if region == ""
        then (panic "auth.RefreshOAuth2: region must not be empty (PRD-03 pre-condition)", w)
        else let p = or_default profile in
          shared (under_way (flight_key region p)) (refresh_once region p) w
