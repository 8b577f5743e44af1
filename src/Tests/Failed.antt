-- ===== src/Tests/Failed.antt =====
-- A store and a delete that cannot write ovh.conf.
use ovh_cli.Prelude.{String, ◌≢◌, refl, arith}
use ovh_cli.Errors.{Result, ok}
use ovh_cli.Auth.World.{World}
use ovh_cli.Auth.HostsFile.{delete_hosts_creds, rewrite_hosts, without_profile}
use ovh_cli.Auth.Store.{
  store_credentials, delete_credentials, delete_secrets, delete_section, on_files, has_session,
}
use ovh_cli.Auth.Store.Failed.{IsUntouchedIn, store_credentials-failed, delete_credentials-failed}
use ovh_cli.Tests.Memory.{memory_disk-IsAtomic}
use ovh_cli.Tests.Setup.{services, with_plain_storage, classic}
use ovh_cli.Tests.Store.{after_store, load}
use ovh_cli.Tests.Session.{signed_in}

abbrev conf : String
conf = "/c/ovh/ovh.conf"

abbrev locked : World services → World services
locked w = record w { files = record w.files { locked = conf } }

abbrev stored : World services → Result (Unit {0}) × World services
stored w = store_credentials services "ovh-eu" "" classic w

abbrev deleted : World services → Result (Unit {0}) × World services
deleted w = delete_credentials services "ovh-eu" "" w

store_fails : (stored (locked with_plain_storage)).0 ≢ ok tt
unfolding after_store
store_fails h = ground (arith, h)

store_credentials-failed_example :
    IsUntouchedIn services memory_disk-IsAtomic conf
      (locked with_plain_storage)
      (stored (locked with_plain_storage)).1
unfolding has_session
store_credentials-failed_example =
    store_credentials-failed services memory_disk-IsAtomic conf refl refl "ovh-eu" "" classic
      (locked with_plain_storage) refl store_fails

delete_fails : (deleted (locked signed_in)).0 ≢ ok tt
unfolding after_store load signed_in delete_credentials delete_secrets delete_section on_files
    delete_hosts_creds rewrite_hosts without_profile
delete_fails h = ground (arith, h)

delete_credentials-failed_example :
    IsUntouchedIn services memory_disk-IsAtomic conf
      (locked signed_in)
      (deleted (locked signed_in)).1
delete_credentials-failed_example =
    delete_credentials-failed services memory_disk-IsAtomic conf refl refl "ovh-eu" ""
      (locked signed_in) refl delete_fails
