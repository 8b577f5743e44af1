-- ===== src/Cli/Main/Exits.antt =====
-- How the process ends.
use ovh_cli.Prelude.{
  ℕ, String, false, some, none, Option, List, [], ◌∷◌, ◌≡◌, ◌≢◌, ◌↔◌, refl, arith,
}
use ovh_cli.Prelude.Sort.{contains}
use ovh_cli.Prelude.Dict.{Dict}
use ovh_cli.Errors.{Error, Result, ok, err, panic}
use ovh_cli.Effect.NoPanic.{NoPanic}
use ovh_cli.Auth.Credentials.{Time}
use ovh_cli.Schema.Types.{Service}
use ovh_cli.Schema.Fetch.{Http}
use ovh_cli.Schema.World.{SchemaServices}
use ovh_cli.Schema.Refresh.Calm.{IsCalmCodec, IsCalmHttp}
use ovh_cli.Paths.{Xdg}
use ovh_cli.Cli.Command.{diff}
use ovh_cli.Cli.ExitCode.{Codes, exit_ok, from}
use ovh_cli.Cli.Schema.{Print, printf, text}
use ovh_cli.Cli.Root.{Shell, Invocation, runs, execute}
use ovh_cli.Cli.Root.Safe.{IsCobra, execute-NoPanic}
use ovh_cli.Cli.Main.{exited, run, main}

-- The one line that an error is reported with.
abbrev pub Reports : (Error → String) → Result (List Print) → ℕ → List Print → Type 0
Reports error_text (ok l) code lines = (code ≡ exit_ok) × (lines ≡ [])
Reports error_text (err e) code lines =
    (code ≢ exit_ok) × (lines ≡ printf "error: %v\n" (text (error_text e) ∷ []) ∷ [])
Reports error_text (panic m) code lines = ⊥

module _ (codes : Codes) (error_text : Error → String)
    (coded : (e : Error) → codes e ≢ some 0) where
  -- No error gives the code 0.
  from-ne : (e : Error) → from codes (some e) ≢ exit_ok
  unfolding from
  from-ne e h = by_code (codes e) refl
    where
      by_code : (o : Option ℕ) → codes e ≡ o → ⊥
      by_code none q = ground (arith, h, q)
      by_code (some c) q = ground (arith, h, q, coded e)

  run-exit_ok :
      (result : Result (List Print))
      → (run codes error_text result ≡ exited exit_ok []) ↔ ((l : List Print) × (result ≡ ok l))
  unfolding run
  run-exit_ok (ok l) = (λ _. (l, refl), λ _. refl)
  run-exit_ok (err e) = (λ h. absurd (from-ne e (ground (arith, h))), λ (l, h). absurd (cc))
  run-exit_ok (panic m) = (λ h. absurd (cc), λ (l, h). absurd (cc))

  run-Reports :
      (result : Result (List Print))
      → NoPanic result
      → (code : ℕ) × (lines : List Print) × (run codes error_text result ≡ exited code lines)
        × Reports error_text result code lines
  unfolding run
  run-Reports (ok l) h = (exit_ok, [], refl, (refl, refl))
  run-Reports (err e) h = (from codes (some e), _, refl, (from-ne e, refl))
  run-Reports (panic m) h = absurd (h m refl)

  -- The process exits, with the code 0 and nothing on stderr if the command succeeds, and with
  -- another code and one line on stderr, the error's, if it fails. It does not crash, if the command
  -- is not `ovh schema diff` with an empty operand, cobra runs a command only with operands that its
  -- check accepts, the libraries do not panic, and no error carries the code 0.
  pub main-Reports :
      (S : SchemaServices) (X : Xdg) (T : Shell) (H : Http) (schedule : List String → List String)
      (arguments : List String) (now : Time) (s : S.disk.State)
      → IsCalmCodec S.meta_json
      → IsCalmCodec S.space_json
      → ((d : Dict Service) → NoPanic (S.services_json d))
      → IsCobra T
      → IsCalmHttp H
      → ((inv : Invocation)
          → T.parse arguments ≡ runs inv
          → inv.command ≡ diff
          → contains inv.operands "" ≡ false)
      → (code : ℕ) × (lines : List Print) × ((main S X T H schedule codes error_text arguments now
            s).0
          ≡ exited code lines)
        × Reports error_text (execute S X T H schedule arguments now s).0 code lines
  unfolding main
  main-Reports S X T H schedule arguments now s M P J C K h =
      run-Reports (execute S X T H schedule arguments now s).0
        (execute-NoPanic S X M P J T C H K schedule arguments now s h)
