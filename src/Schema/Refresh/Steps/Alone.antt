-- ===== src/Schema/Refresh/Steps/Alone.antt =====
-- A process that nothing interrupts is a refresh.
use ovh_cli.Prelude.{ap, ℕ, zero, suc, String, ◌≡◌, ◌≤◌, ◌∙◌, refl, arith}
use ovh_cli.Errors.{Result, ok, err, panic}
use ovh_cli.Schema.World.{SchemaServices}
use ovh_cli.Schema.Fetch.{not_modified, modified}
use ovh_cli.Schema.Refresh.{refresh_from}
use ovh_cli.Schema.Refresh.Attempts.{Attempt}
use ovh_cli.Schema.Refresh.Steps.{
  Process, starting, fetching, creating, storing, heading, bumping, finished, next, advance, start,
  rest_of, rest_of-advance,
}

-- How many steps are left at most.
abbrev pub rank : Process → ℕ
rank starting = 5
rank (fetching etag) = 4
rank (creating result) = 3
rank (storing result) = 2
rank (heading space) = 1
rank (bumping etag m) = 1
rank (finished r) = 0

rank-next {ℓ} :
    {A : Type ℓ} (r : Result A) (f : A → Process) (n : ℕ)
    → ((a : A) → rank (f a) ≤ n)
    → rank (next r f) ≤ n
rank-next (ok a) f n h = h a
rank-next (err e) f n h = omega arith
rank-next (panic m) f n h = omega arith

module _ (S : SchemaServices) (path region : String) (a : Attempt) where
  open S use {disk}

  -- So many steps of the process.
  abbrev pub steps : ℕ → Process → disk.State → Process × disk.State
  steps zero p s = (p, s)
  steps (suc n) p s = let (p', s') = advance S path region a p s in steps n p' s'

  pub rank-advance :
      (p : Process) (s : disk.State) (n : ℕ)
      → rank p ≤ suc n
      → rank (advance S path region a p s).0 ≤ n
  unfolding advance start
  rank-advance starting s n h = ground arith
  rank-advance (fetching etag) s n h = rank-next _ creating n λ r. omega (arith, h)
  rank-advance (creating result) s n h = rank-next _ (λ _. storing result) n λ r. omega (arith, h)
  rank-advance (storing (not_modified etag)) s n h =
      rank-next _ (bumping etag) n λ r. omega (arith, h)
  rank-advance (storing (modified space)) s n h = rank-next _ heading n λ r. omega (arith, h)
  rank-advance (heading space) s n h = omega arith
  rank-advance (bumping etag m) s n h = omega arith
  rank-advance (finished r) s n h = omega arith

  steps-finished :
      (n : ℕ) (p : Process) (s : disk.State)
      → rank p ≤ n
      → let (r, s') = rest_of S path region a p s in steps n p s ≡ (finished r, s')
  unfolding rest_of
  steps-finished zero (finished r) s h = refl
  steps-finished zero starting s h = absurd (omega (arith, h))
  steps-finished zero (fetching etag) s h = absurd (omega (arith, h))
  steps-finished zero (creating result) s h = absurd (omega (arith, h))
  steps-finished zero (storing result) s h = absurd (omega (arith, h))
  steps-finished zero (heading space) s h = absurd (omega (arith, h))
  steps-finished zero (bumping etag m) s h = absurd (omega (arith, h))
  steps-finished (suc n) p s h =
      let (p', s') = advance S path region a p s in
      steps-finished n p' s' (rank-advance p s n h)
      ∙ ap (λ x. (finished x.0, x.1)) (rest_of-advance S path region a p s)

  -- A process that nothing interrupts ends after five steps, with the result of the refresh and with
  -- the disk as the refresh leaves it.
  pub steps-refresh_from :
      (s : disk.State)
      → let (r, s') = refresh_from S a.http a.schedule region a.endpoint a.hosts path a.now s in
        steps 5 starting s ≡ (finished r, s')
  unfolding rest_of
  steps-refresh_from s = steps-finished 5 starting s (omega arith)
