-- ===== src/Cli/Version.antt =====
-- internal/cli/version/version.go: the version, commit and date that `ovh version` prints.
use ovh_cli.Prelude.{
  String, not, Option, none, some, List, [], ◌∷◌, ◌==◌, ◌&&◌, ◌≡◌, ◌∙◌, arith, if◌then◌else◌,
}
use ovh_cli.Prelude.{eq_iff}
use ovh_cli.Errors.{Error, Result, ok, err}
use ovh_cli.Cli.Schema.{Print, printf, text}

pub record Build : Type 0 where
  pub version : String
  pub commit : String
  pub date : String

abbrev pub unknown : String
unknown = "unknown"

-- The body of the loop over the settings of the build information.
unfoldable pub read_setting : String → String → Build → Build
read_setting key value b =
    if key == "vcs.revision"
    then (if b.commit == unknown then record b { commit = value } else b)
    else if key == "vcs.time"
    then (if b.date == unknown then record b { date = value } else b)
    else b

unfoldable pub read_settings : List (String × String) → Build → Build
read_settings [] b = b
read_settings ((key, value) ∷ rest) b = read_settings rest (read_setting key value b)

unfoldable pub with_info : Option (List (String × String)) → Build → Build
with_info none b = b
with_info (some settings) b = read_settings settings b

-- `resolve`, of the values that the linker set and `debug.ReadBuildInfo`.
unfoldable pub resolve : Build → Option (List (String × String)) → Build
unfolding with_info
resolve b info =
    if not (b.commit == unknown) && not (b.date == unknown) then b else with_info info b

-- The body of the command's `RunE`, with the error that `Fprintf` returns for a line, if any.
unfoldable pub version_command :
    (Print → Option Error) → Build → Option (List (String × String)) → Result (List Print)
version_command print b info =
    let r = resolve b info in
    let line =
      printf "ovh %s (commit %s, built %s)\n" (text r.version ∷ text r.commit ∷ text r.date ∷ []) in
    elim (print line) [ none ↦ ok (line ∷ []) | some e ↦ err e ]

-- The first value of a key that is not "unknown", or "unknown".
unfoldable pub first_known : String → List (String × String) → String
first_known key [] = unknown
first_known key ((k, v) ∷ rest) =
    let later = first_known key rest in
    if k == key then (if v == unknown then later else v) else later

abbrev pub settings_of : Option (List (String × String)) → List (String × String)
settings_of none = []
settings_of (some settings) = settings

read_settings-known :
    (settings : List (String × String)) (b : Build)
    → read_settings settings b ≡ record {
      version = b.version;
      commit = if b.commit == unknown then first_known "vcs.revision" settings else b.commit;
      date = if b.date == unknown then first_known "vcs.time" settings else b.date;
    }
unfolding read_settings read_setting first_known
read_settings-known [] b = ground (arith, eq_iff b.commit unknown, eq_iff b.date unknown)
read_settings-known ((k, v) ∷ rest) b =
    read_settings-known rest (read_setting k v b)
    ∙ ground (
      arith,
      eq_iff k "vcs.revision",
      eq_iff k "vcs.time",
      eq_iff "vcs.revision" "vcs.time",
      eq_iff v unknown,
      eq_iff b.commit unknown,
      eq_iff b.date unknown,
    )

-- `ovh version` shows the commit and the date that the linker set. If either is not set, the one
-- that is not is the first value that the build information has for it and that is not "unknown", or
-- "unknown" where it has none. The version is the linker's.
pub resolve_lem :
    (b : Build) (info : Option (List (String × String)))
    → resolve b info ≡ record {
      version = b.version;
      commit =
          if b.commit == unknown then first_known "vcs.revision" (settings_of info) else b.commit;
      date = if b.date == unknown then first_known "vcs.time" (settings_of info) else b.date;
    }
unfolding resolve first_known
resolve_lem b none = ground (arith, eq_iff b.commit unknown, eq_iff b.date unknown)
resolve_lem b (some settings) = ground (arith, read_settings-known settings b)
