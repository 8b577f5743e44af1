-- ===== src/Tests/Others.antt =====
-- Storing credentials of one region beside the session of another, by the theorem.
use ovh_cli.Prelude.{[], String, Option, none, some, ◌≡◌, ◌≢◌, refl, arith, eq_iff}
use ovh_cli.Errors.{Result, ok, err, panic}
use ovh_cli.Auth.Credentials.{Credentials}
use ovh_cli.Auth.Conf.{load_default_conf}
use ovh_cli.Auth.Store.{load_credentials}
use ovh_cli.Auth.Store.Others.{load_credentials-store_other}
use ovh_cli.Tests.Memory.{memory_disk-IsAtomic, memory_ini-IsLawful, memory_ring-IsKeyed}
use ovh_cli.Tests.Memory.Blob.{hosts_codec-IsFaithful, IniFile}
use ovh_cli.Tests.Setup.{services, classic}
use ovh_cli.Prelude.{true}
use ovh_cli.Platform.Ini.{is_plain, is_name}
use ovh_cli.Auth.Keyring.{make_placeholder}
use ovh_cli.Auth.Conf.{SecretField, get, key_of, application_secret, consumer_key, client_secret}
use ovh_cli.Tests.Store.{TextsArePlain, are_plain}
use ovh_cli.Tests.Store.{after_store, load}
use ovh_cli.Tests.Session.{signed_in, signed_in-IsCanonical, signed_in-IsHostsCanonical}

abbrev canadian : Credentials
canadian = record classic { region = "ovh-ca" }

file_of : Result (Option (IniFile × String)) → IniFile
file_of (ok (some (f, path))) = f
file_of (ok none) = record { names = []; values = [] }
file_of (err e) = record { names = []; values = [] }
file_of (panic m) = record { names = []; values = [] }

conf : IniFile
unfolding file_of signed_in load
conf = file_of (load_default_conf services signed_in)

conf-found : load_default_conf services signed_in ≡ ok (some (conf, services.config_file))
unfolding conf
conf-found = refl

different : canadian.region ≢ "ovh-eu"
different e = ground (arith, eq_iff "ovh-ca" "ovh-eu")

canadian_texts : TextsArePlain canadian
unfolding load is_plain is_name get
canadian_texts = (refl, refl, refl, refl, secrets)
  where
    secrets :
        (sf : SecretField)
        → (is_plain (make_placeholder canadian.region "default" (key_of sf)) ≡ true)
          × (is_plain (get sf canadian) ≡ true)
    secrets application_secret = (refl, refl)
    secrets consumer_key = (refl, refl)
    secrets client_secret = (refl, refl)

load_credentials-store_other_example :
    load_credentials services (after_store signed_in canadian) "ovh-eu" ""
    ≡ load_credentials services signed_in "ovh-eu" ""
unfolding after_store load signed_in
load_credentials-store_other_example =
    load_credentials-store_other services memory_disk-IsAtomic memory_ini-IsLawful
      memory_ring-IsKeyed hosts_codec-IsFaithful "ovh-ca" "" "ovh-eu" "" canadian conf
      services.config_file signed_in (after_store signed_in canadian) refl refl refl different
      conf-found (λ k. refl) signed_in-IsCanonical signed_in-IsHostsCanonical
      (λ found e. (refl, are_plain canadian _ canadian_texts))
