-- ===== src/Auth/HostsFile.antt =====
-- internal/auth/hostsyml.go: OAuth2 session state in hosts.yml.
pub mod Tokens
pub mod Files
pub mod Profiles
pub mod Sessions
use Prim.Native.Nat.{bit_and}
use ovh_cli.Prelude.{String, Bool, ◌==◌, eqb, Option, none, some, [], if◌then◌else◌}
use ovh_cli.Prelude.Dict.{Dict, lookup, insert, remove, is_empty}
use ovh_cli.Errors.{Result, ok, err, ◌>>=◌, wrap_err, wrapf, errorf, sentinel, file_mode_unsafe}
use ovh_cli.Effect.{Effect, chain, lift, ◌>>=◌ as ◌⟫=◌}
use ovh_cli.Platform.Disk.{missing, stat_failed, dir, file, no_file, read_failed, bytes}
use ovh_cli.Auth.Credentials.{Credentials}
use ovh_cli.Auth.Keyring.{make_placeholder, keyring_set, keyring_delete}
use ovh_cli.Auth.Hosts.{HostProfile, HostRegion, HostsFile, hosts_yml_version}
use ovh_cli.Auth.World.{Services, World}
use ovh_cli.Auth.Conf.{storage_keyring, resolve_secret, make_config_dir, write_private}

-- The zero values that Go's maps give for a missing key.
abbrev pub zero_profile : HostProfile
zero_profile = record {
  access_token = "";
  refresh_token = "";
  expiry = 0;
  account = "";
  last_validated_at = 0;
  scopes_granted = [];
}

abbrev pub profiles_of : Option HostRegion → Dict HostProfile
profiles_of none = []
profiles_of (some r) = r.profiles

abbrev pub profile_or_zero : Option HostProfile → HostProfile
profile_or_zero none = zero_profile
profile_or_zero (some p) = p

-- `hf.Hosts[region].Profiles[profile]`
unfoldable pub find_profile : HostsFile → String → String → Option HostProfile
find_profile hf region profile = lookup profile (profiles_of (lookup region hf.hosts))

-- The two secrets of a profile.
pub data TokenField : Type 0 where
  access_token refresh_token : TokenField

unfoldable pub token_key : TokenField → String
token_key access_token = "access_token"
token_key refresh_token = "refresh_token"

unfoldable pub token_of : TokenField → Credentials → String
token_of access_token c = c.access_token
token_of refresh_token c = c.refresh_token

unfoldable pub set_token : TokenField → String → Credentials → Credentials
set_token access_token v c = record c { access_token = v }
set_token refresh_token v c = record c { refresh_token = v }

unfoldable pub stored_token : TokenField → HostProfile → String
stored_token access_token p = p.access_token
stored_token refresh_token p = p.refresh_token

unfoldable pub put_token : TokenField → String → HostProfile → HostProfile
put_token access_token v p = record p { access_token = v }
put_token refresh_token v p = record p { refresh_token = v }

module _ (S : Services) where
  open S use {disk, ring, yaml}

  -- The part of `loadHostsYML` after the stat.
  unfoldable pub read_hosts : disk.State → Result (Option HostsFile)
  read_hosts files = elim (disk.read_file files S.hosts_file) [
    | no_file ↦ err (errorf "auth: read hosts.yml: no such file" [])
    | read_failed e ↦ err (wrapf "auth: read hosts.yml: %w" [] e)
    | bytes b ↦ wrap_err "auth: parse hosts.yml: %w" [] (yaml.unmarshal b) >>= λ hf. ok (some hf)
  ]

  abbrev pub check_mode : Bool → disk.State → Result (Option HostsFile)
  check_mode private files =
      if private
      then read_hosts files
      else err (wrapf "%w: hosts.yml mode %o" [] (sentinel file_mode_unsafe))

  unfoldable pub load_hosts_yml : disk.State → Result (Option HostsFile)
  load_hosts_yml files = elim (disk.stat files S.hosts_file) [
    | missing ↦ ok none
    | stat_failed e ↦ err (wrapf "auth: stat hosts.yml: %w" [] e)
    | dir m ↦ check_mode (eqb (bit_and m 0o077) 0) files
    | file m ↦ check_mode (eqb (bit_and m 0o077) 0) files
  ]

  unfoldable pub write_hosts_yml : HostsFile → Effect disk.State (Unit {0})
  unfolding make_config_dir write_private
  write_hosts_yml f = make_config_dir S S.hosts_file ⟫= λ _.
      lift (wrap_err "auth: marshal hosts.yml: %w" [] (yaml.marshal f)) ⟫= λ b.
      write_private S S.hosts_file b

  unfoldable pub read_token :
      ring.State → HostProfile → String → String → TokenField → Credentials → Result Credentials
  read_token s p region profile tf c =
      if stored_token tf p == ""
      then ok c
      else (resolve_secret S s (stored_token tf p) region profile (token_key tf) >>= λ v.
          ok (set_token tf v c))

  -- What `readHostsCreds` makes of the entry; `none` is `ok = false`.
  unfoldable pub read_profile :
      ring.State → Credentials → String → String → Option HostProfile → Result (Option Credentials)
  unfolding read_token
  read_profile s c region profile none = ok none
  read_profile s c region profile (some p) = do
    c₁ ← read_token s p region profile access_token c
    c₂ ← read_token s p region profile refresh_token c₁
    ok (some (if eqb p.expiry 0 then c₂ else record c₂ { expiry = p.expiry }))

  abbrev pub entry_of : Option HostsFile → String → String → Option HostProfile
  entry_of none region profile = none
  entry_of (some hf) region profile = find_profile hf region profile

  -- The credentials as changed through the pointer, or `none` where they are left alone.
  unfoldable pub read_hosts_creds :
      World S → Credentials → String → String → Result (Option Credentials)
  read_hosts_creds w c region profile = load_hosts_yml w.files >>= λ hf.
      read_profile w.secrets c region profile (entry_of hf region profile)

  -- One round of the loop of `writeHostsCreds`.
  unfoldable pub apply_token :
      Credentials → String → TokenField → HostProfile → Effect ring.State HostProfile
  apply_token c storage tf p s =
      let v = token_of tf c in
      let key = token_key tf in
      if v == ""
      then (ok (put_token tf "" p), (keyring_delete ring c.region c.profile key s).1)
      else if storage == storage_keyring
      then chain (keyring_set ring c.region c.profile key v s)
          (λ _ s'. (ok (put_token tf (make_placeholder c.region c.profile key) p), s'))
      else (ok (put_token tf v p), s)

  unfoldable pub apply_tokens : Credentials → String → HostProfile → Effect ring.State HostProfile
  apply_tokens c storage p =
      apply_token c storage access_token p ⟫= λ p₁. apply_token c storage refresh_token p₁

  abbrev pub hosts_or_new : Option HostsFile → HostsFile
  hosts_or_new none = record { version = hosts_yml_version; hosts = [] }
  hosts_or_new (some hf) = hf

  -- The file with the profile's entry replaced.
  unfoldable pub with_profile : HostsFile → Credentials → HostProfile → HostsFile
  with_profile hf c p = record {
    version = hosts_yml_version;
    hosts =
        insert c.region
          (record { profiles = insert c.profile p (profiles_of (lookup c.region hf.hosts)) })
          hf.hosts;
  }

  unfoldable pub write_hosts_creds : Credentials → String → Effect (World S) (Unit {0})
  write_hosts_creds c storage w =
      chain (load_hosts_yml w.files, w)
        λ loaded _.
          let hf = hosts_or_new loaded in
          let old = profile_or_zero (find_profile hf c.region c.profile) in
          let (applied, s) = apply_tokens c storage old w.secrets in
          chain (applied, record w { secrets = s })
            λ p w₁.
              let (done, files) =
                write_hosts_yml (with_profile hf c (record p { expiry = c.expiry })) w₁.files in
              (done, record w₁ { files = files })

  -- The file without the profile's entry, and without the region's if that was its last.
  unfoldable pub without_profile : HostsFile → String → String → HostRegion → HostsFile
  without_profile hf region profile r =
      let left = remove profile r.profiles in
      record hf {
        hosts =
            if is_empty left
            then remove region hf.hosts
            else insert region (record { profiles = left }) hf.hosts;
      }

  unfoldable pub rewrite_hosts :
      World S → String → String → Option HostsFile → Result (Unit {0}) × World S
  rewrite_hosts w region profile none = (ok tt, w)
  rewrite_hosts w region profile (some hf) = elim (lookup region hf.hosts) [
    | none ↦ (ok tt, w)
    | some r ↦
        let (done, files) = write_hosts_yml (without_profile hf region profile r) w.files in
        (done, record w { files = files })
  ]

  unfoldable pub delete_hosts_creds : String → String → Effect (World S) (Unit {0})
  unfolding rewrite_hosts
  delete_hosts_creds region profile w =
      let s₁ = (keyring_delete ring region profile "access_token" w.secrets).1 in
      let s₂ = (keyring_delete ring region profile "refresh_token" s₁).1 in
      let w₁ : World S = record w { secrets = s₂ } in
      chain (load_hosts_yml w₁.files, w₁) λ hf w₂. rewrite_hosts w₂ region profile hf
