-- ===== src/Tests/Memory/Blob.antt =====
-- File contents of the runs: what was encoded, or text that nothing decodes.
use ovh_cli.Prelude.{String, ◌≡◌, arith, ◌==◌, ◌<>◌, if◌then◌else◌}
use ovh_cli.Schema.Raw.{RawField, reindented, IsReindenting}
use ovh_cli.Errors.{Result, ok, err, errorf}
use ovh_cli.Prelude.{[]}
use ovh_cli.Prelude.Dict.{Dict}
use ovh_cli.Platform.Codec.{Codec, IsFaithful}
use ovh_cli.Auth.Hosts.{HostsFile}
use ovh_cli.Schema.Types.{Meta, ApiSpace, Service}

-- Sections by name, and their values.
pub record IniFile : Type 0 where
  pub names : Dict (Unit {0})
  pub values : Dict (Dict String)

pub data Blob : Type 0 where
  ini_blob : IniFile → Blob
  hosts_blob : HostsFile → Blob
  meta_blob : Meta → Blob
  space_blob : ApiSpace → Blob
  services_blob : Dict Service → Blob
  junk : String → Blob

unfoldable pub decode_hosts : Blob → Result HostsFile
decode_hosts (hosts_blob hf) = ok hf
decode_hosts _ = err (errorf "yaml: bad document" [])

abbrev pub hosts_codec : Codec Blob HostsFile
hosts_codec = record { marshal = λ hf. ok (hosts_blob hf); unmarshal = decode_hosts }

hosts_decoded : (a : HostsFile) (b : Blob) → hosts_codec.marshal a ≡ ok b → decode_hosts b ≡ ok a
unfolding decode_hosts
hosts_decoded a b h = ground arith

pub hosts_codec-IsFaithful : IsFaithful hosts_codec
hosts_codec-IsFaithful = record { unmarshal-marshal = hosts_decoded }

unfoldable pub decode_meta : Blob → Result Meta
decode_meta (meta_blob m) = ok m
decode_meta _ = err (errorf "json: bad document" [])

abbrev pub meta_codec : Codec Blob Meta
meta_codec = record { marshal = λ m. ok (meta_blob m); unmarshal = decode_meta }

meta_decoded : (a : Meta) (b : Blob) → meta_codec.marshal a ≡ ok b → decode_meta b ≡ ok a
unfolding decode_meta
meta_decoded a b h = ground arith

pub meta_codec-IsFaithful : IsFaithful meta_codec
meta_codec-IsFaithful = record { unmarshal-marshal = meta_decoded }

unfoldable pub decode_space : Blob → Result ApiSpace
decode_space (space_blob m) = ok m
decode_space _ = err (errorf "json: bad document" [])

-- A raw text is moved to the right.
abbrev pub indent : RawField → String → String
indent field raw = if raw == "" then "" else "  " <> raw

abbrev pub space_codec : Codec Blob ApiSpace
space_codec = record {
  marshal = λ m. ok (space_blob (reindented indent m));
  unmarshal = decode_space;
}

space_decoded :
    (a : ApiSpace) (b : Blob)
    → space_codec.marshal a ≡ ok b
    → decode_space b ≡ ok (reindented indent a)
unfolding decode_space
space_decoded a b h = ground arith

pub space_codec-IsReindenting : IsReindenting space_codec indent
space_codec-IsReindenting = record { unmarshal-marshal = space_decoded }
