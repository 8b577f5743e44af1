-- ===== src/Tests/Sessions.antt =====
-- A sequence of operations on hosts.yml, run and by the theorem.
use ovh_cli.Prelude.{String, none, List, [], ◌∷◌, refl}
use ovh_cli.Errors.{Result, ok}
use ovh_cli.Auth.Credentials.{Credentials}
use ovh_cli.Auth.World.{World}
use ovh_cli.Auth.Conf.{storage_keyring}
use ovh_cli.Auth.HostsFile.{delete_hosts_creds, rewrite_hosts, without_profile}
use ovh_cli.Auth.HostsFile.Sessions.{Sessions, Op, put, drop, replay, run}
use ovh_cli.Auth.HostsFile.Sessions.Refinement.{Shows, run-Shows}
use ovh_cli.Tests.Memory.{memory_disk-IsAtomic, memory_ring-IsKeyed}
use ovh_cli.Tests.Memory.Blob.{hosts_codec-IsFaithful}
use ovh_cli.Tests.Setup.{services, fresh, session}
use ovh_cli.Tests.Store.{load, after_store}

abbrev named : String → Credentials
named profile = record session { profile = profile }

-- Two sessions are written and one of them is dropped.
abbrev ops : List Op
ops =
    put (named "default") storage_keyring
    ∷ put (named "work") storage_keyring
    ∷ drop "ovh-eu" "default"
    ∷ []

abbrev no_sessions : Sessions
no_sessions region profile = none

fresh-Shows : Shows services fresh no_sessions
unfolding load
fresh-Shows = record { loaded = none; load = refl; entries = λ region profile. refl; regular = tt }

ran : List (Op × Result (Unit {0})) × World services
unfolding load after_store delete_hosts_creds rewrite_hosts without_profile
ran = run services ops fresh

run-Shows_example : Shows services ran.1 (
    replay
      ((put (named "default") storage_keyring, ok tt)
        ∷ (put (named "work") storage_keyring, ok tt)
        ∷ (drop "ovh-eu" "default", ok tt)
        ∷ [])
      no_sessions)
unfolding ran
run-Shows_example =
    run-Shows services memory_disk-IsAtomic memory_ring-IsKeyed hosts_codec-IsFaithful refl ops
      fresh no_sessions fresh-Shows
