-- ===== src/Auth/HostsFile/Sessions.antt =====
-- What hosts.yml stands for: a map from regions and profiles to sessions.
pub mod Entries
pub mod Unchanged
pub mod Refinement
use ovh_cli.Prelude.{String, Option, none, some, List, [], ◌∷◌, ◌==◌, ◌&&◌, if◌then◌else◌}
use ovh_cli.Errors.{Result, ok, err, panic}
use ovh_cli.Effect.{Effect}
use ovh_cli.Auth.Credentials.{Credentials}
use ovh_cli.Auth.Hosts.{HostProfile}
use ovh_cli.Auth.World.{Services, World}
use ovh_cli.Auth.HostsFile.{
  access_token, refresh_token, profile_or_zero, write_hosts_creds, delete_hosts_creds,
}
use ovh_cli.Auth.HostsFile.Tokens.{token_form}

abbrev pub Sessions : Type 0
Sessions = String → String → Option HostProfile

-- The two operations that change hosts.yml.
pub data Op : Type 0 where
  put : Credentials → String → Op
  drop : String → String → Op

-- The entry for a session: its tokens, or their placeholders, and its expiry, over what was there.
abbrev pub session_of : Credentials → String → Option HostProfile → HostProfile
session_of c storage old = record (profile_or_zero old) {
  access_token = token_form c storage access_token;
  refresh_token = token_form c storage refresh_token;
  expiry = c.expiry;
}

-- What an operation does to the map.
abbrev pub applied : Op → Sessions → Sessions
applied (put c storage) m region profile =
    if c.region == region && c.profile == profile
    then some (session_of c storage (m c.region c.profile))
    else m region profile
applied (drop gone gone_profile) m region profile =
    if gone == region && gone_profile == profile then none else m region profile

-- An operation that fails does nothing.
abbrev pub outcome : Result (Unit {0}) → Op → Sessions → Sessions
outcome (ok _) op m = applied op m
outcome (err _) op m = m
outcome (panic _) op m = m

abbrev pub replay : List (Op × Result (Unit {0})) → Sessions → Sessions
replay [] m = m
replay ((op, r) ∷ rest) m = replay rest (outcome r op m)

module _ (S : Services) where
  abbrev pub exec : Op → Effect (World S) (Unit {0})
  exec (put c storage) = write_hosts_creds S c storage
  exec (drop region profile) = delete_hosts_creds S region profile

  -- The operations with their results, and the world after them.
  abbrev pub run : List Op → World S → List (Op × Result (Unit {0})) × World S
  run [] w = ([], w)
  run (op ∷ ops) w =
      let step = exec op w in let rest = run ops step.1 in ((op, step.0) ∷ rest.0, rest.1)
