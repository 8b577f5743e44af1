-- ===== src/Auth/Flow.antt =====
-- internal/auth/flow.go: the classic flow, which asks for an application's keys, has the user
-- validate a new consumer key in the browser, and polls until that is done.
pub mod Poll
pub mod Laws
pub mod Registry
use Prim.Native.Char.{code}
use ovh_cli.Prelude.{
  ℕ, suc, String, ◌<>◌, ◌+◌, ◌*◌, Bool, true, false, Option, none, some, List, [], ◌∷◌, ◌++◌,
}
use ovh_cli.Prelude.{◌==◌, ◌&&◌, ◌||◌, eqb, ltb, if◌then◌else◌}
use ovh_cli.Errors.{Error, Result, ok, err, panic, ◌>>=◌, ◌>>◌, ensure, wrap_err, wrapf, errorf}
use ovh_cli.Effect.{Effect, chain, lift, ◌>>=◌ as ◌⟫=◌}
use ovh_cli.Auth.Credentials.{Credentials, zero_credentials, method_consumer_key, Time}
use ovh_cli.Auth.Regions.{Region, Url, validate_host}
use ovh_cli.Auth.Flow.Poll.{Polling, poll_until_validated}

-- 10 minutes in nanoseconds.
abbrev pub default_flow_timeout : ℕ
default_flow_timeout = 10 * 60 * 1000000000

-- Enough for the delays that fit into the timeout.
abbrev pub poll_fuel : ℕ
poll_fuel = 25

pub record CredentialResponse : Type 0 where
  pub validation_url : String
  pub consumer_key : String
  pub state : String

pub record Rule : Type 0 where
  pub method : String
  pub path : String

abbrev pub default_rules : List Rule
default_rules =
    record { method = "GET"; path = "/*" }
    ∷ record { method = "POST"; path = "/*" }
    ∷ record { method = "PUT"; path = "/*" }
    ∷ record { method = "DELETE"; path = "/*" }
    ∷ []

pub record Reply (Bytes : Type 0) : Type 0 where
  pub status : ℕ
  pub body : Bytes

-- Encoding the rules; building and sending a POST request to a URL with the application's key and a
-- body; at most so many bytes of a body, as text or decoded; a client of go-ovh, with what its
-- requests for /me and the clock give.
pub record FlowServices : Type 1 where
  pub Bytes : Type 0
  pub parse_url : String → Result Url
  pub marshal_rules : List Rule → Result Bytes
  pub new_request : String → Result (Unit {0})
  pub post : String → String → Bytes → Result (Reply Bytes)
  pub read_text : ℕ → Bytes → String
  pub decode_response : ℕ → Bytes → Result CredentialResponse
  pub new_client : String → String → String → String → Result Polling

-- What the user meets: how often the keys were asked for, and the pages that were opened, in order.
pub record Session : Type 0 where
  pub asked : ℕ
  pub opened : List String

-- The answers to the prompts by their number, and the browser, by the number of pages before.
pub record User : Type 0 where
  pub answer : ℕ → Result (String × String)
  pub open_url : ℕ → String → Option Error

abbrev is_nil : String → Bool
is_nil String.[] = true
is_nil (String.◌∷◌ c s) = false

-- `strings.TrimRight(s, "/")`
unfoldable pub trim_slashes : String → String
trim_slashes String.[] = String.[]
trim_slashes (String.◌∷◌ c s) =
    let rest = trim_slashes s in
    if eqb (code c) b'/' && is_nil rest then String.[] else String.◌∷◌ c rest

abbrev pub credential_url : Region → String
credential_url region = trim_slashes region.endpoint_url <> "/auth/credential"

abbrev pub consumer_credentials :
    Region → String → String × String → CredentialResponse → Credentials
consumer_credentials region profile (ak, secret) response = record zero_credentials {
  region = region.id;
  profile = profile;
  method = method_consumer_key;
  application_key = ak;
  application_secret = secret;
  consumer_key = response.consumer_key;
}

module _ (F : FlowServices) where
  checked_response : CredentialResponse → Result CredentialResponse
  checked_response out =
      if out.validation_url == "" || out.consumer_key == ""
      then err (errorf "auth: /auth/credential response missing validationUrl or consumerKey" [])
      else ok out

  response_of : Reply F.Bytes → Result CredentialResponse
  response_of resp =
      if eqb resp.status 200
      then (wrap_err "auth: decode /auth/credential: %w" []
            (F.decode_response (64 * 1024) resp.body)
          >>= checked_response)
      else err
          (errorf "auth: /auth/credential HTTP %d: %s" (F.read_text (16 * 1024) resp.body ∷ []))

  unfoldable pub post_auth_credential : Region → String → List Rule → Result CredentialResponse
  unfolding response_of checked_response
  post_auth_credential region app_key rules = do
    body ← wrap_err "auth: marshal credential request: %w" [] (F.marshal_rules rules)
    let target : String = credential_url region
    _ ←
        wrap_err "auth: endpoint %q: %w" (target ∷ [])
          (validate_host F.parse_url target region.validation_host_pattern)
    _ ← F.new_request target
    resp ← wrap_err "auth: post /auth/credential: %w" [] (F.post target app_key body)
    response_of resp

  module _ (U : User) where
    -- `askAKAS(ctx)`
    unfoldable pub ask : Effect Session (String × String)
    ask s = (U.answer s.asked, record s { asked = s.asked + 1 })

    abbrev count : List String → ℕ
    count [] = 0
    count (_ ∷ l) = suc (count l)

    opening : String → Option Error → Result (Unit {0})
    opening format none = ok tt
    opening format (some e) = err (wrapf format [] e)

    -- `openBrowser(url)`, with the error that its caller makes of it. A page counts as opened even
    -- if the browser reports an error.
    unfoldable pub open_browser : String → String → Effect Session (Unit {0})
    unfolding opening
    open_browser format url s = (
      opening format (U.open_url (count s.opened) url),
      record s { opened = s.opened ++ url ∷ [] },
    )

    -- The page for new applications, and a second prompt, where the first gave nothing.
    unfoldable pub ask_after_portal :
        Region → String × String → Bool → Effect Session (String × String)
    ask_after_portal region keys true =
        open_browser "auth: open portal: %w" region.portal_create_app_url ⟫= λ _. ask
    ask_after_portal region keys false = lift (ok keys)

    unfoldable pub ask_again : Region → String × String → Effect Session (String × String)
    unfolding ask_after_portal
    ask_again region (ak, secret) = ask_after_portal region (ak, secret) (ak == "" && secret == "")

    abbrev pub both_given : String × String → Result (Unit {0})
    both_given (ak, secret) =
        if ak == "" || secret == ""
        then err (errorf "auth: both ApplicationKey and ApplicationSecret are required" [])
        else ok tt

    unfoldable pub validated :
        Region → String → String × String → CredentialResponse → Result Credentials
    validated region profile (ak, secret) response =
        (wrap_err "auth: build go-ovh client: %w" []
            (F.new_client region.endpoint_url ak secret response.consumer_key)
          >>= λ P. poll_until_validated P poll_fuel default_flow_timeout)
        >>= λ _. ok (consumer_credentials region profile (ak, secret) response)

    -- `RunConsumerKeyFlow` after the prompts.
    unfoldable pub run_with_keys : Region → String → String × String → Effect Session Credentials
    unfolding validated
    run_with_keys region profile keys = lift (both_given keys) ⟫= λ _.
        lift (post_auth_credential region keys.0 default_rules) ⟫= λ response.
        lift (
          wrap_err "auth: validation URL rejected: %w" []
            (validate_host F.parse_url response.validation_url region.validation_host_pattern))
        ⟫= λ _. open_browser "auth: open validation URL: %w" response.validation_url ⟫= λ _.
            lift (validated region profile keys response)

    -- `RunConsumerKeyFlow` with a prompt; a nil context is outside the model.
    unfoldable pub run_consumer_key_flow : Region → String → Effect Session Credentials
    unfolding ask_again
    run_consumer_key_flow region profile s =
        if region.id == ""
        then (panic "auth.RunConsumerKeyFlow: empty Region (PRD-03 pre-condition)", s)
        else (ask
              ⟫= ask_again region
              ⟫= run_with_keys region (if profile == "" then "default" else profile))
            s
