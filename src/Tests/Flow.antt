-- ===== src/Tests/Flow.antt =====
-- The consumer key flow and its polling loop, run and by the theorems.
use Prim.Native.Char.{code}
use text.Mathlib.TextLemmas.{nil-append, cons-append}
use ovh_cli.Prelude.{
  ℕ, zero, suc, String, ◌<>◌, ◌+◌, ◌*◌, true, false, Option, none, some, [], ◌∷◌, ◌≡◌, refl, arith,
}
use ovh_cli.Prelude.{if◌then◌else◌, eqb, ltb}
use ovh_cli.Prelude.Sort.{contains}
use ovh_cli.Errors.{Error, Result, ok, errorf}
use ovh_cli.Auth.Credentials.{Credentials, Time}
use ovh_cli.Auth.Regions.{Url, ovh_eu, validate_host, region_by_id}
use ovh_cli.Auth.Flow.{
  FlowServices, User, Session, trim_slashes, post_auth_credential, run_consumer_key_flow, ask,
  open_browser, ask_again, ask_after_portal, run_with_keys, validated,
}
use ovh_cli.Auth.Flow.Poll.{
  Polling, poll_interval, poll_from, poll_until_validated, round, after_request, next_delay,
}
use ovh_cli.Auth.Flow.Poll.Laws.{IsClock, poll_until_validated-total, poll_until_validated_succeeds}
use ovh_cli.Auth.Flow.Laws.{
  All, IsSafe, IsValidated, run_consumer_key_flow-opens, run_consumer_key_flow-IsValidated,
}
use ovh_cli.Auth.Flow.Registry.{is_plain, ParsesPlain, IsConsistent, region_by_id-IsConsistent}
use ovh_cli.Tests.Setup.{classic}

-- The text after the first eight characters, and the text up to the first slash.
drop : ℕ → String → String
drop zero s = s
drop (suc n) String.[] = String.[]
drop (suc n) (String.◌∷◌ c s) = drop n s

up_to_slash : String → String
up_to_slash String.[] = String.[]
up_to_slash (String.◌∷◌ c s) =
    let rest = up_to_slash s in if eqb (code c) b'/' then String.[] else String.◌∷◌ c rest

abbrev parse_https : String → Result Url
parse_https u = ok (record { scheme = "https"; user = none; host = up_to_slash (drop 8 u) })

drop-scheme : (s : String) → drop 8 ("https://" <> s) ≡ s
unfolding drop
drop-scheme s =
    rw
      (
        cons-append, cons-append, cons-append, cons-append, cons-append, cons-append, cons-append,
        cons-append, nil-append,
      )
      refl

up_to_slash-append :
    (host path : String) → is_plain false host ≡ true → up_to_slash (host <> ("/" <> path)) ≡ host
unfolding is_plain up_to_slash
up_to_slash-append String.[] path h = rw nil-append (rw cons-append refl)
up_to_slash-append (String.◌∷◌ c s) path h =
    rw cons-append (ground (arith, up_to_slash-append s path))

parse_https-ParsesPlain : ParsesPlain parse_https
parse_https-ParsesPlain = record {
  parses = λ host path h k.
      rw (drop-scheme (host <> ("/" <> path)), up_to_slash-append host path h) refl;
}

region_by_id-IsConsistent_example : IsConsistent parse_https parse_https-ParsesPlain ovh_eu
unfolding region_by_id
region_by_id-IsConsistent_example =
    region_by_id-IsConsistent parse_https parse_https-ParsesPlain "ovh-eu" ovh_eu refl

-- The user validates the key after four seconds. A request takes a nanosecond.
answered : Time → Option Error
answered t = if ltb t 4000000000 then some (errorf "pending" []) else none

abbrev patient : Polling
patient = record {
  started = 0;
  request = λ i t. (answered t, t + 1);
  sleep = λ i t d. (none, t + d);
}

patient-IsClock : IsClock patient
patient-IsClock = record {
  request_later = λ i t. omega arith;
  sleep_lasts = λ i t d h. omega arith;
}

poll_until_validated-total_example :
    (r : Result (Unit {0})) × (poll_from patient 25 0 poll_interval
        (patient.started + 600 * 1000000000)
        patient.started
      ≡ some r)
poll_until_validated-total_example = poll_until_validated-total patient patient-IsClock

poll_until_validated_succeeds_example : poll_until_validated patient 25 (600 * 1000000000) ≡ ok tt
unfolding answered
poll_until_validated_succeeds_example =
    poll_until_validated_succeeds patient 4000000000 patient-IsClock (λ i t h. ground arith)
      (λ i t h. omega arith) (λ i t d. refl)

-- OVH gives a consumer key to any application.
abbrev ovh : FlowServices
ovh = record {
  Bytes = Unit {0};
  parse_url = parse_https;
  marshal_rules = λ rules. ok tt;
  new_request = λ target. ok tt;
  post = λ target key body. ok (record { status = 200; body = tt });
  read_text = λ limit b. "";
  decode_response = λ limit b. ok (record {
    validation_url = "https://www.ovh.com/auth/?credentialToken=x";
    consumer_key = "ck";
    state = "pendingValidation";
  });
  new_client = λ endpoint key secret consumer_key. ok patient;
}

-- A user who gives the keys when asked a second time.
answers : ℕ → Result (String × String)
answers zero = ok ("", "")
answers (suc n) = ok ("ak", "as")

abbrev applicant : User
applicant = record { answer = answers; open_url = λ n url. none }

abbrev start : Session
start = record { asked = 0; opened = [] }

flow_run : Result Credentials × Session
unfolding run_consumer_key_flow ask open_browser ask_again ask_after_portal run_with_keys validated
    post_auth_credential validate_host trim_slashes contains drop up_to_slash answers poll_from
    poll_until_validated round after_request next_delay answered
flow_run = run_consumer_key_flow ovh applicant ovh_eu "" start

abbrev granted : Credentials
granted = record classic { profile = "default" }

flow_run-eq : flow_run ≡ (
  ok granted,
  record {
    asked = 2;
    opened =
        "https://eu.api.ovh.com/createApp/" ∷ "https://www.ovh.com/auth/?credentialToken=x" ∷ [];
  },
)
unfolding flow_run
flow_run-eq = refl

run_consumer_key_flow-IsValidated_example : IsValidated ovh ovh_eu "default" granted
unfolding flow_run
run_consumer_key_flow-IsValidated_example =
    run_consumer_key_flow-IsValidated ovh applicant ovh_eu "" granted start flow_run.1 flow_run-eq

run_consumer_key_flow-opens_example : All (IsSafe ovh applicant ovh_eu) flow_run.1.opened
unfolding flow_run
run_consumer_key_flow-opens_example = run_consumer_key_flow-opens ovh applicant ovh_eu "" start tt
