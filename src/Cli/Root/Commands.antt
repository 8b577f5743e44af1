-- ===== src/Cli/Root/Commands.antt =====
-- No command panics by itself, apart from `schema diff` on an empty region.
use ovh_cli.Prelude.{String, Bool, true, false, Option, none, some, List, ◌≡◌, ◌==◌, refl}
use ovh_cli.Errors.{wrap_err}
use ovh_cli.Effect.NoPanic.{
  NoPanic, ok-NoPanic, err-NoPanic, bind-NoPanic, wrap_err-NoPanic, chain-NoPanic,
}
use ovh_cli.Auth.Credentials.{Time}
use ovh_cli.Schema.Types.{Service, PathSpec}
use ovh_cli.Schema.World.{SchemaServices}
use ovh_cli.Schema.Fetch.{Http}
use ovh_cli.Schema.Querier.{describe}
use ovh_cli.Prelude.Dict.{Dict}
use ovh_cli.Schema.Refresh.Calm.{
  IsCalmCodec, IsCalmHttp, open_cache_at-NoPanic, refresh_from-NoPanic,
}
use ovh_cli.Paths.{Xdg}
use ovh_cli.Cli.Regions.{resolve_region}
use ovh_cli.Cli.Schema.{
  resolve_region_flag, open_cache, refresh_command, show_command, shown, path_command, diff_command,
}
use ovh_cli.Cli.Regions.Resolves.{resolve_region-usable, resolve_region-NoPanic}

flag-nonempty : (flag : String) → (resolve_region_flag flag == "") ≡ false
unfolding resolve_region_flag
flag-nonempty flag = by_test (flag == "") refl
  where
    by_test : (b : Bool) → (flag == "") ≡ b → (resolve_region_flag flag == "") ≡ false
    by_test true e = rw e refl
    by_test false e = rw e e

module _ (S : SchemaServices) (X : Xdg) (M : IsCalmCodec S.meta_json) (P : IsCalmCodec S.space_json)
    (services_calm : (d : Dict Service) → NoPanic (S.services_json d)) where
  open S use {disk}

  open_cache-NoPanic :
      (s : disk.State) (region : String) (now : Time)
      → (region == "") ≡ false
      → NoPanic (open_cache S X s region now)
  unfolding open_cache
  open_cache-NoPanic s region now = open_cache_at-NoPanic S M P services_calm s _ region now

  pub path_command-NoPanic :
      (s : disk.State) (flag prefix : String) (now : Time)
      → NoPanic (path_command S X s flag prefix now)
  unfolding path_command
  path_command-NoPanic s flag prefix now =
      bind-NoPanic (wrap_err _ _ (open_cache S X s (resolve_region_flag flag) now)) _
        (wrap_err-NoPanic _ _ _ (open_cache-NoPanic s _ now (flag-nonempty flag)))
        λ q _. ok-NoPanic _

  shown-NoPanic :
      (fold : String → String → Bool) (region method target : String) (ps : Option PathSpec)
      → NoPanic (shown S X fold region method target ps)
  unfolding shown
  shown-NoPanic fold region method target none = err-NoPanic _
  shown-NoPanic fold region method target (some ps) = ok-NoPanic _

  pub show_command-NoPanic :
      (fold : String → String → Bool) (s : disk.State) (flag method target : String) (now : Time)
      → NoPanic (show_command S X fold s flag method target now)
  unfolding show_command
  show_command-NoPanic fold s flag method target now =
      bind-NoPanic (wrap_err _ _ (open_cache S X s (resolve_region_flag flag) now)) _
        (wrap_err-NoPanic _ _ _ (open_cache-NoPanic s _ now (flag-nonempty flag)))
        λ q _. shown-NoPanic fold _ method target (describe q target)

  pub diff_command-NoPanic :
      (s : disk.State) (first second : String) (now : Time)
      → (first == "") ≡ false
      → (second == "") ≡ false
      → NoPanic (diff_command S X s first second now)
  unfolding diff_command
  diff_command-NoPanic s first second now h k =
      bind-NoPanic (wrap_err _ _ (open_cache S X s first now)) _
        (wrap_err-NoPanic _ _ _ (open_cache-NoPanic s first now h))
        λ a _.
          bind-NoPanic (wrap_err _ _ (open_cache S X s second now)) _
            (wrap_err-NoPanic _ _ _ (open_cache-NoPanic s second now k)) λ b _. ok-NoPanic _

  pub refresh_command-NoPanic :
      (H : Http) (schedule : List String → List String) (flag : String) (now : Time)
      (s : disk.State)
      → IsCalmHttp H
      → NoPanic (refresh_command S X H schedule flag now s).0
  unfolding refresh_command
  refresh_command-NoPanic H schedule flag now s K =
      chain-NoPanic (resolve_region (resolve_region_flag flag), s) _
        (resolve_region-NoPanic (resolve_region_flag flag))
        λ rc e.
          let (served, hosted) = resolve_region-usable (resolve_region_flag flag) rc e in
          refresh_from-NoPanic S M P services_calm H schedule _ rc.endpoint rc.allowed_hosts _ now s
            K (flag-nonempty flag) served hosted
