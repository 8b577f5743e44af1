-- ===== src/Tests/Setup.antt =====
-- The services in memory, worlds and credentials that the runs share.
use ovh_cli.Prelude.{String, ◌<>◌, some, [], ◌∷◌}
use ovh_cli.Auth.Credentials.{Credentials, zero_credentials, method_consumer_key, method_oauth2}
use ovh_cli.Auth.World.{Services, World}
use ovh_cli.Tests.Memory.{memory_disk, memory_ring, memory_ini, plain}
use ovh_cli.Tests.Memory.Blob.{hosts_codec, ini_blob, IniFile}

-- The canonical directory is `/c/ovh`.
abbrev pub services : Services
services = record {
  disk = memory_disk;
  ring = memory_ring;
  ini = memory_ini;
  yaml = hosts_codec;
  config_file = "/c/ovh/ovh.conf";
  hosts_file = "/c/ovh/hosts.yml";
  dir_of = λ p. "/c/ovh";
  join = λ d p. d <> ("/" <> p);
}

abbrev pub no_env : String → String
no_env name = ""

-- Nothing is stored, and there is a home directory.
abbrev pub fresh : World services
fresh = record {
  files = record { entries = []; locked = "" };
  secrets = record { entries = []; locked = "" };
  env = no_env;
  home = some "/home/u";
}

abbrev pub plain_storage : IniFile
plain_storage = record {
  names = ("default", tt) ∷ [];
  values = ("default", ("storage", "file") ∷ []) ∷ [];
}

-- ovh.conf asks for secrets in plaintext.
abbrev pub with_plain_storage : World services
with_plain_storage = record fresh {
  files = record {
    entries = ("/c/ovh/ovh.conf", plain 0o600 (ini_blob plain_storage)) ∷ [];
    locked = "";
  };
}

abbrev pub classic : Credentials
classic = record zero_credentials {
  region = "ovh-eu";
  method = method_consumer_key;
  application_key = "ak";
  application_secret = "as";
  consumer_key = "ck";
}

abbrev pub session : Credentials
session = record zero_credentials {
  region = "ovh-eu";
  method = method_oauth2;
  client_id = "id";
  client_secret = "cs";
  access_token = "at";
  refresh_token = "rt";
  expiry = 7;
}
