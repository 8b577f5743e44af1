-- ===== src/Tests/OAuth.antt =====
-- The loopback server, proof keys and the exchange of a code, run and by the theorems.
use ovh_cli.Prelude.{
  List, ℕ, zero, suc, String, ◌<>◌, ◌+◌, ◌*◌, ◌≤◌, ◌<◌, false, none, some, [], ◌∷◌, ◌==◌, ◌≡◌, ◌≢◌,
  refl, arith,
}
use ovh_cli.Prelude.{if◌then◌else◌}
use text.Mathlib.TextLemmas.{nil-append, cons-append}
use ovh_cli.Prelude.Sort.{contains}
use ovh_cli.Errors.{Result, ok, errorf}
use ovh_cli.Auth.Credentials.{Credentials}
use ovh_cli.Auth.Regions.{ovh_eu, validate_host, region_by_id}
use ovh_cli.Auth.Store.{is_known}
use ovh_cli.Auth.Loopback.{
  ahead, behind, LoopbackServer, Query, result_of, handle_callback, received, elapsed, failed, wait,
  receive, callback, Reachable, made, stepped,
}
use ovh_cli.Auth.Loopback.Laws.{wait-HasCode, deliver, wait-deliver, wait_times_out}
use ovh_cli.Auth.OAuth.{
  Crypto, new_pkce, CodeRequest, granted, send_code, exchange_pkce, resolve_token_endpoint,
  try_oidc_discovery, endpoint_or_fallback,
}
use ovh_cli.Auth.OAuth.Laws.{size, IsSized, new_pkce-size}
use ovh_cli.Auth.OAuth.Flights.{flight_key_inj}
use ovh_cli.Tests.Session.{issuer, token}

abbrev bound : LoopbackServer
bound = record { addr = "127.0.0.1:5000"; result = none; closed = false }

-- A callback with a code, and one with an error.
abbrev with_code : Query
with_code key = if key == "code" then "c" else ""

abbrev denied : Query
denied key = if key == "error" then "access_denied" else ""

waiting : LoopbackServer
unfolding handle_callback
waiting = (handle_callback with_code bound).1

waiting-Reachable : Reachable waiting
unfolding waiting
waiting-Reachable = stepped (made "127.0.0.1:5000") (callback with_code)

wait-HasCode_example : (result_of with_code).code ≢ ""
unfolding result_of waiting wait receive
wait-HasCode_example =
    wait-HasCode waiting (ahead 5) received (result_of with_code) bound waiting-Reachable refl refl

wait-deliver_example :
    wait (behind 0) received (deliver (denied ∷ with_code ∷ []) bound)
    ≡ some (result_of denied, bound)
wait-deliver_example = wait-deliver bound (behind 0) denied (with_code ∷ []) refl

wait_times_out_example :
    wait (ahead 900000000000) (elapsed 300000000000) bound
    ≡ some (failed (errorf "auth: loopback callback timed out after %s" []), bound)
wait_times_out_example = wait_times_out bound (ahead 900000000000) 300000000000 (ground arith)

-- Buffers of zeros, by their length; three bytes are encoded as four characters.
encode_zeros : ℕ → String
encode_zeros zero = ""
encode_zeros (suc zero) = "AA"
encode_zeros (suc (suc zero)) = "AAA"
encode_zeros (suc (suc (suc n))) = "AAAA" <> encode_zeros n

abbrev zeros : Crypto
zeros = record {
  Bytes = ℕ;
  read = λ n. ok n;
  encode = encode_zeros;
  sha256 = λ b. 32;
  bytes_of = size;
  error_text = λ e. "failed";
}

abbrev IsEncoded : ℕ → Type 0
IsEncoded n = (4 * n ≤ 3 * size (encode_zeros n)) × (3 * size (encode_zeros n) < 4 * n + 3)

size-four : (s : String) → size ("AAAA" <> s) ≡ 4 + size s
unfolding size
size-four s = rw (cons-append, cons-append, cons-append, cons-append, nil-append) (omega arith)

encode_zeros-IsEncoded : (n : ℕ) → IsEncoded n
unfolding encode_zeros size
encode_zeros-IsEncoded zero = (omega arith, omega arith)
encode_zeros-IsEncoded (suc zero) = (omega arith, omega arith)
encode_zeros-IsEncoded (suc (suc zero)) = (omega arith, omega arith)
encode_zeros-IsEncoded (suc (suc (suc n))) =
    let (h, k) = encode_zeros-IsEncoded n in
    (omega (arith, size-four (encode_zeros n)), omega (arith, size-four (encode_zeros n)))

zeros-IsSized : IsSized zeros
zeros-IsSized = record {
  count = λ b. b;
  read_fills = λ n b h. ground arith;
  digest = λ b. refl;
  encoded = λ b. (encode_zeros-IsEncoded b).0;
  encoded_below = λ b. (encode_zeros-IsEncoded b).1;
}

verifier : String
unfolding encode_zeros
verifier = encode_zeros 32

new_pkce-size_example : (size verifier ≡ 43) × (size verifier ≡ 43) × (verifier ≡ encode_zeros 32)
unfolding new_pkce verifier
new_pkce-size_example = new_pkce-size zeros zeros-IsSized verifier verifier refl

-- The code is sent once, and the token comes back.
unfoldable exchange : Result Credentials × List CodeRequest
unfolding exchange_pkce send_code resolve_token_endpoint try_oidc_discovery endpoint_or_fallback
    validate_host contains
exchange = exchange_pkce issuer ovh_eu "c" "v" "http://127.0.0.1:5000/callback" []

abbrev code_request : CodeRequest
code_request = record {
  url = "https://www.ovh.com/auth/token";
  redirect_uri = "http://127.0.0.1:5000/callback";
  code = "c";
  verifier = "v";
}

exchanged : exchange ≡ (ok (granted ovh_eu token), code_request ∷ [])
unfolding exchange
exchanged = refl

abbrev odd_profile : String
odd_profile = "work:2"

flight_key_inj_example : (ovh_eu.id ≡ "ovh-eu") × (odd_profile ≡ "work:2")
unfolding is_known region_by_id
flight_key_inj_example = flight_key_inj ovh_eu.id odd_profile "ovh-eu" "work:2" refl refl refl
