-- ===== src/Tests/Session.antt =====
-- Sessions: storing, refreshing and deleting, run and by the theorems.
use ovh_cli.Prelude.{
  false, none, some, ◌<>◌, ◌==◌, ◌≡◌, ◌≢◌, refl, sym, ◌∙◌, inr, subst, arith, eq_iff,
}
use ovh_cli.Prelude.Sort.{contains}
use ovh_cli.Auth.Conf.Files.{IsCanonical, IsFileOrMissing}
use mathlib.Core.Option.{some-injective}
use ovh_cli.Errors.{answered, Result, ok, err, sentinel, not_configured}
use ovh_cli.Platform.Disk.{missing}
use ovh_cli.Auth.Credentials.{Credentials}
use ovh_cli.Auth.Keyring.{is_placeholder}
use ovh_cli.Auth.World.{World}
use ovh_cli.Auth.Regions.{validate_host}
use ovh_cli.Auth.Conf.{
  SecretField, get, application_secret, consumer_key, client_secret, storage_keyring,
}
use ovh_cli.Auth.HostsFile.{
  TokenField, access_token, refresh_token, token_of, read_hosts_creds, write_hosts_creds,
  without_profile, rewrite_hosts, delete_hosts_creds,
}
use ovh_cli.Auth.HostsFile.Profiles.{read_hosts_creds-write_hosts_creds}
use ovh_cli.Auth.Store.{
  load_credentials, delete_credentials, delete_secrets, delete_section, on_files, or_default,
}
use ovh_cli.Auth.Store.RoundTrip.{StorableIn}
use ovh_cli.Auth.Store.Session.{IsHostsCanonical, load_credentials-store_session}
use ovh_cli.Auth.Store.Deleted.{load_credentials-delete_credentials}
use ovh_cli.Auth.OAuth.{
  TokenServices, Token, refresh_once, refresh_known, renewed, stored_as, resolve_token_endpoint,
  try_oidc_discovery, endpoint_or_fallback,
}
use ovh_cli.Auth.OAuth.Refresh.{Refreshed, refresh_once-Refreshed, load_credentials-refresh_once}
use ovh_cli.Tests.Memory.{memory_disk-IsAtomic, memory_ini-IsLawful, memory_ring-IsKeyed}
use ovh_cli.Tests.Memory.Blob.{hosts_codec-IsFaithful}
use ovh_cli.Tests.Setup.{services, fresh, session}
use ovh_cli.Prelude.{true}
use ovh_cli.Platform.Ini.{is_plain, is_name}
use ovh_cli.Auth.Keyring.{make_placeholder}
use ovh_cli.Auth.Conf.{key_of}
use ovh_cli.Tests.Store.{TextsArePlain, are_plain}
use ovh_cli.Tests.Store.{after_store, load, fresh-IsCanonical}

-- The paths of the runs are apart, whatever is on the disk.
hosts_canonical :
    (w : World services)
    → w.home ≡ some "/home/u"
    → IsFileOrMissing (services.disk.stat w.files "/c/ovh/hosts.yml")
    → IsHostsCanonical services w
hosts_canonical w h regular = record {
  regular = regular;
  apart = refl;
  hosts_apart = refl;
  config_ne = refl;
  config_apart = refl;
  hosts_ne = refl;
  local_apart = refl;
  local_ne = refl;
  home_apart = λ j e.
      subst (λ d. services.disk.is_within (services.join d ".ovh.conf") "/c/ovh" ≡ false)
        (some-injective "/home/u" j (sym h ∙ e)) refl;
  home_ne = λ j e.
      subst (λ d. (services.hosts_file == services.join d ".ovh.conf") ≡ false)
        (some-injective "/home/u" j (sym h ∙ e)) refl;
  system_apart = refl;
  system_ne = refl;
}

canonical :
    (w : World services)
    → w.home ≡ some "/home/u"
    → services.disk.stat w.files "ovh.conf" ≡ missing
    → services.disk.stat w.files "/home/u/.ovh.conf" ≡ missing
    → IsFileOrMissing (services.disk.stat w.files "/c/ovh/ovh.conf")
    → IsCanonical services w
canonical w h local home config = record {
  local_missing = local;
  home_missing = λ j e.
      subst (λ d. services.disk.stat w.files (services.join d ".ovh.conf") ≡ missing)
        (some-injective "/home/u" j (sym h ∙ e)) home;
  canonical = config;
  config_apart = refl;
  local_apart = refl;
  local_ne = refl;
  home_apart = λ j e.
      subst (λ d. services.disk.is_within (services.join d ".ovh.conf") "/c/ovh" ≡ false)
        (some-injective "/home/u" j (sym h ∙ e)) refl;
  home_ne = λ j e.
      subst (λ d. (services.config_file == services.join d ".ovh.conf") ≡ false)
        (some-injective "/home/u" j (sym h ∙ e)) refl;
}

-- A world that holds a session.
unfoldable pub signed_in : World services
unfolding after_store
signed_in = after_store fresh session

pub signed_in-IsCanonical : IsCanonical services signed_in
unfolding signed_in
signed_in-IsCanonical = canonical signed_in refl refl refl tt

pub signed_in-IsHostsCanonical : IsHostsCanonical services signed_in
unfolding signed_in
signed_in-IsHostsCanonical = hosts_canonical signed_in refl tt

fresh-IsHostsCanonical : IsHostsCanonical services fresh
unfolding after_store
fresh-IsHostsCanonical = hosts_canonical fresh refl tt

-- The keyring is the storage in these runs.
session-StorableIn :
    (w : World services) (c : Credentials)
    → c.method ≡ "oauth2"
    → ((sf : SecretField) → is_placeholder (get sf c) ≡ false)
    → StorableIn services w c
session-StorableIn w c m plain found e = record {
  named = inr m;
  method_verbatim = refl;
  key_verbatim = refl;
  id_verbatim = refl;
  secret_verbatim = λ sf. refl;
  no_placeholder = λ sf h. plain sf;
}

plain_secret : (sf : SecretField) → is_placeholder (get sf session) ≡ false
unfolding load get
plain_secret application_secret = refl
plain_secret consumer_key = refl
plain_secret client_secret = refl

plain_token : (tf : TokenField) → is_placeholder (token_of tf session) ≡ false
unfolding load token_of
plain_token access_token = refl
plain_token refresh_token = refl

session_texts : TextsArePlain session
unfolding load is_plain is_name get
session_texts = (refl, refl, refl, refl, secrets)
  where
    secrets :
        (sf : SecretField)
        → (is_plain (make_placeholder session.region "default" (key_of sf)) ≡ true)
          × (is_plain (get sf session) ≡ true)
    secrets application_secret = (refl, refl)
    secrets consumer_key = (refl, refl)
    secrets client_secret = (refl, refl)

load_credentials-store_session_example :
    load_credentials services signed_in "ovh-eu" ""
    ≡ ok (record session { profile = or_default "" })
unfolding signed_in load
load_credentials-store_session_example =
    load_credentials-store_session services memory_disk-IsAtomic memory_ini-IsLawful
      memory_ring-IsKeyed hosts_codec-IsFaithful "ovh-eu" "" session fresh signed_in refl refl refl
      fresh-IsCanonical fresh-IsHostsCanonical (session-StorableIn fresh session refl plain_secret)
      (λ found e. (refl, are_plain session _ session_texts)) (λ found e k. plain_token) refl refl

abbrev pub token : Token
token = record { access_token = "at2"; refresh_token = ""; expiry = 9 }

-- The issuer has no discovery document.
abbrev pub issuer : TokenServices
issuer = record {
  Bytes = Unit {0};
  parse_url = λ u. ok (record { scheme = "https"; host = "www.ovh.com"; user = none });
  join_path = λ base path. answered (base <> path);
  get = λ url. answered (record { status = 404; body = tt });
  decode_endpoint = λ limit b. answered "";
  exchange = λ url redirect_uri code verifier. ok token;
  renew = λ url refresh_token. ok token;
}

refreshed : Result Credentials × World services
unfolding signed_in load refresh_once refresh_known renewed stored_as resolve_token_endpoint
    try_oidc_discovery endpoint_or_fallback validate_host contains
refreshed = refresh_once issuer services "ovh-eu" "" signed_in

-- The refresh token is kept, since the response has none.
abbrev renewed_session : Credentials
renewed_session = record session { profile = "default"; access_token = "at2"; expiry = 9 }

refreshed-eq : refreshed ≡ (ok renewed_session, refreshed.1)
unfolding refreshed
refreshed-eq = refl

plain_renewed : (tf : TokenField) → is_placeholder (token_of tf renewed_session) ≡ false
unfolding load token_of
plain_renewed access_token = refl
plain_renewed refresh_token = refl

plain_renewed_secret : (sf : SecretField) → is_placeholder (get sf renewed_session) ≡ false
unfolding load get
plain_renewed_secret application_secret = refl
plain_renewed_secret consumer_key = refl
plain_renewed_secret client_secret = refl

renewed_texts : TextsArePlain renewed_session
unfolding load is_plain is_name get
renewed_texts = (refl, refl, refl, refl, secrets)
  where
    secrets :
        (sf : SecretField)
        → (is_plain (make_placeholder renewed_session.region "default" (key_of sf)) ≡ true)
          × (is_plain (get sf renewed_session) ≡ true)
    secrets application_secret = (refl, refl)
    secrets consumer_key = (refl, refl)
    secrets client_secret = (refl, refl)

load_credentials-refresh_once_example :
    load_credentials services refreshed.1 "ovh-eu" "" ≡ ok renewed_session
unfolding refreshed
load_credentials-refresh_once_example =
    load_credentials-refresh_once issuer services memory_disk-IsAtomic memory_ini-IsLawful
      memory_ring-IsKeyed hosts_codec-IsFaithful "ovh-eu" "" renewed_session signed_in refreshed.1
      refreshed-eq refl signed_in-IsCanonical signed_in-IsHostsCanonical
      (session-StorableIn signed_in renewed_session refl plain_renewed_secret)
      (λ found e. (refl, are_plain renewed_session _ renewed_texts)) (λ found e k. plain_renewed)

refresh_once-Refreshed_example :
    Refreshed issuer services "ovh-eu" "" signed_in renewed_session refreshed.1
unfolding refreshed
refresh_once-Refreshed_example =
    refresh_once-Refreshed issuer services "ovh-eu" "" signed_in renewed_session refreshed.1
      refreshed-eq

signed_out : Result (Unit {0}) × World services
unfolding signed_in load delete_credentials delete_secrets delete_section on_files
    delete_hosts_creds rewrite_hosts without_profile
signed_out = delete_credentials services "ovh-eu" "" signed_in

load_credentials-delete_credentials_example :
    load_credentials services signed_out.1 "ovh-eu" "work" ≡ err (sentinel not_configured)
unfolding signed_out
load_credentials-delete_credentials_example =
    load_credentials-delete_credentials services memory_disk-IsAtomic memory_ini-IsLawful
      hosts_codec-IsFaithful "ovh-eu" "" "work" signed_in signed_out.1 refl refl refl
      signed_in-IsCanonical signed_in-IsHostsCanonical (λ found e. refl)

-- A second session, in the profile `work`.
abbrev work : Credentials
work = record session { profile = "work"; access_token = "w"; refresh_token = "" }

both : World services
unfolding signed_in load
both = (write_hosts_creds services work storage_keyring signed_in).1

other_profile : work.profile ≢ "default"
other_profile e = ground (arith, eq_iff "work" "default")

read_hosts_creds-write_hosts_creds_example :
    read_hosts_creds services both session work.region "default"
    ≡ read_hosts_creds services signed_in session work.region "default"
unfolding both
read_hosts_creds-write_hosts_creds_example =
    read_hosts_creds-write_hosts_creds services memory_disk-IsAtomic memory_ring-IsKeyed
      hosts_codec-IsFaithful work session storage_keyring "default" signed_in both refl
      other_profile tt refl
