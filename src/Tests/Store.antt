-- ===== src/Tests/Store.antt =====
-- Storing and loading, run and by the theorems.
use ovh_cli.Prelude.{true}
use ovh_cli.Errors.{err, panic}
use ovh_cli.Tests.Memory.{MemoryRing}
use ovh_cli.Tests.Memory.Blob.{IniFile}
use ovh_cli.Auth.Conf.{storage_keyring}
use ovh_cli.Prelude.{String, ◌≡◌, refl, false, inl, subst, ◌==◌}
use ovh_cli.Platform.Disk.{missing}
use ovh_cli.Errors.{ok, Result}
use ovh_cli.Auth.Credentials.{Credentials, is_zero}
use ovh_cli.Prelude.{has_prefix, trim_prefix}
use ovh_cli.Prelude.Dict.{lookup, insert, remove}
use ovh_cli.Tests.Memory.{decode_ini, put, drop, reply}
use ovh_cli.Tests.Memory.Blob.{decode_hosts}
use ovh_cli.Auth.World.{World}
use ovh_cli.Auth.Regions.{region_by_id}
use ovh_cli.Auth.Keyring.{
  keyring_get, keyring_set, keyring_delete, is_placeholder, make_placeholder, keyring_user,
  map_keyring_error,
}
use ovh_cli.Auth.Conf.{
  SecretField, key_of, get, set, load_default_conf, find_conf, conf_paths, load_ini, touch_storage,
  storage_mode, resolve_secret, read_secret, choose_method, read_creds_from_conf, set_or_delete,
  apply_secret, apply_secrets, apply_creds, write_ovh_conf, put_value,
}
use ovh_cli.Auth.HostsFile.{
  find_profile, read_hosts, load_hosts_yml, write_hosts_yml, read_profile, read_hosts_creds,
  apply_token, apply_tokens, with_profile, write_hosts_creds, token_key, token_of, set_token,
  stored_token, put_token,
}
use ovh_cli.Auth.Conf.{application_secret, consumer_key, client_secret}
use ovh_cli.Auth.Conf.Files.{IsCanonical}
use ovh_cli.Platform.Ini.{is_plain, is_name}
use ovh_cli.Auth.Conf.Raw.{stored}
use ovh_cli.Effect.{if_property}
use ovh_cli.Auth.Conf.Writable.{ArePlain}
use ovh_cli.Auth.Store.RoundTrip.{StorableIn, KeptIn, load_credentials-store_classic}
use ovh_cli.Tests.Memory.{memory_disk-IsAtomic, memory_ini-IsLawful, memory_ring-IsKeyed}
use mathlib.Core.Option.{some-injective}
use ovh_cli.Auth.Store.{
  store_credentials, load_credentials, store_checked, load_stored, or_default, is_known,
  has_session, read_env,
}
use ovh_cli.Tests.Memory.{write_entry, kept_mode, is_folder, make, stat_entry, read_entry}
use ovh_cli.Tests.Setup.{services, fresh, with_plain_storage, classic, session}

-- What a store leaves, and what a load then returns.
unfoldable pub after_store : World services → Credentials → World services
unfolding store_credentials store_checked or_default load_default_conf find_conf conf_paths load_ini
    storage_mode touch_storage apply_creds set_or_delete put_value apply_secrets apply_secret key_of
    get keyring_set keyring_delete keyring_user make_placeholder write_ovh_conf has_session is_zero
    write_hosts_creds load_hosts_yml read_hosts write_hosts_yml apply_tokens apply_token token_key
    token_of put_token with_profile find_profile write_entry kept_mode is_folder make stat_entry
    read_entry decode_ini decode_hosts put drop reply lookup insert remove
after_store w c = (store_credentials services c.region "" c w).1

unfoldable pub load : World services → String → Result Credentials
unfolding load_credentials load_stored or_default is_known region_by_id read_env is_zero
    load_default_conf find_conf conf_paths load_ini read_creds_from_conf read_secret choose_method
    resolve_secret keyring_get key_of set is_placeholder has_prefix trim_prefix keyring_user
    make_placeholder map_keyring_error read_hosts_creds load_hosts_yml read_hosts read_profile
    token_key set_token stored_token find_profile stat_entry read_entry decode_ini decode_hosts
    reply lookup insert remove
load w region = load_credentials services w region ""

classic_kept :
    load (after_store fresh classic) "ovh-eu" ≡ ok (record classic { profile = "default" })
unfolding load after_store
classic_kept = refl

session_kept :
    load (after_store fresh session) "ovh-eu" ≡ ok (record session { profile = "default" })
unfolding load after_store
session_kept = refl

plain_kept :
    load (after_store with_plain_storage classic) "ovh-eu"
    ≡ ok (record classic { profile = "default" })
unfolding load after_store
plain_kept = refl

pub fresh-IsCanonical : IsCanonical services fresh
unfolding after_store
fresh-IsCanonical = record {
  local_missing = refl;
  home_missing = λ h e.
      subst (λ j. services.disk.stat fresh.files (services.join j ".ovh.conf") ≡ missing)
        (some-injective "/home/u" h e) refl;
  canonical = tt;
  config_apart = refl;
  local_apart = refl;
  local_ne = refl;
  home_apart = λ h e.
      subst (λ j. services.disk.is_within (services.join j ".ovh.conf") "/c/ovh" ≡ false)
        (some-injective "/home/u" h e) refl;
  home_ne = λ h e.
      subst (λ j. (services.config_file == services.join j ".ovh.conf") ≡ false)
        (some-injective "/home/u" h e) refl;
}

classic-no_placeholder : (sf : SecretField) → is_placeholder (get sf classic) ≡ false
unfolding load get
classic-no_placeholder application_secret = refl
classic-no_placeholder consumer_key = refl
classic-no_placeholder client_secret = refl

classic-StorableIn : StorableIn services fresh classic
classic-StorableIn found e = record {
  named = inl refl;
  method_verbatim = refl;
  key_verbatim = refl;
  id_verbatim = refl;
  secret_verbatim = λ sf. refl;
  no_placeholder = λ sf h. classic-no_placeholder sf;
}

-- The texts of the runs are plain.
plain_secrets :
    (c : Credentials) (storage : String) (sf : SecretField)
    → is_plain (make_placeholder c.region "default" (key_of sf)) ≡ true
    → is_plain (get sf c) ≡ true
    → is_plain (stored c storage sf) ≡ true
unfolding is_plain
plain_secrets c storage sf h k =
    if_property (λ v. is_plain v ≡ true) (get sf c == "") _ _ refl
      (if_property (λ v. is_plain v ≡ true) (storage == storage_keyring) _ _ h k)

-- The region and the texts of the credentials are plain, in one product.
abbrev pub TextsArePlain : Credentials → Type 0
TextsArePlain c =
    (is_name c.region ≡ true)
    × (is_plain c.method ≡ true)
    × (is_plain c.application_key ≡ true)
    × (is_plain c.client_id ≡ true)
    × ((sf : SecretField)
        → (is_plain (make_placeholder c.region "default" (key_of sf)) ≡ true)
          × (is_plain (get sf c) ≡ true))

pub are_plain : (c : Credentials) (storage : String) → TextsArePlain c → ArePlain c storage
are_plain c storage (region, method, key, id, secrets) = record {
  region = region;
  method = method;
  application_key = key;
  client_id = id;
  secrets = λ sf. plain_secrets c storage sf (secrets sf).0 (secrets sf).1;
}

classic_texts : TextsArePlain classic
unfolding load is_plain is_name get
classic_texts = (refl, refl, refl, refl, secrets)
  where
    secrets :
        (sf : SecretField)
        → (is_plain (make_placeholder classic.region "default" (key_of sf)) ≡ true)
          × (is_plain (get sf classic) ≡ true)
    secrets application_secret = (refl, refl)
    secrets consumer_key = (refl, refl)
    secrets client_secret = (refl, refl)

classic-KeptIn : KeptIn services fresh classic
classic-KeptIn found e = (refl, are_plain classic _ classic_texts)

load_credentials-store_classic_example :
    load_credentials services (after_store fresh classic) "ovh-eu" ""
    ≡ ok (record classic { profile = or_default "" })
unfolding after_store load
load_credentials-store_classic_example =
    load_credentials-store_classic services memory_disk-IsAtomic memory_ini-IsLawful
      memory_ring-IsKeyed "ovh-eu" "" classic fresh (after_store fresh classic) refl refl refl
      fresh-IsCanonical classic-StorableIn classic-KeptIn
      (record { method = refl; no_access = refl; no_refresh = refl; no_expiry = refl })

file_of : Result IniFile → IniFile
file_of (ok f) = f
file_of (err e) = services.ini.empty
file_of (panic m) = services.ini.empty

-- The session's client, written to an empty file and keyring.
applied_session : Result IniFile × MemoryRing
unfolding after_store
applied_session = apply_creds services services.ini.empty session storage_keyring fresh.secrets

written_session : IniFile
unfolding file_of applied_session
written_session = file_of applied_session.0
