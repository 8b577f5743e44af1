-- ===== src/Auth/Flow/Poll.antt =====
-- internal/auth/flow.go: `pollUntilValidated`, over what the requests for /me and the waits between
-- them do.
pub mod Laws
use ovh_cli.Prelude.{ℕ, zero, suc, ◌+◌, ◌*◌, Option, none, some, [], ltb, if◌then◌else◌}
use ovh_cli.Errors.{Error, Result, ok, err, panic, wrapf}
use ovh_cli.Auth.Credentials.{Time}

-- 2 and 30 seconds in nanoseconds.
abbrev pub poll_interval : ℕ
poll_interval = 2 * 1000000000

abbrev pub max_poll_interval : ℕ
max_poll_interval = 30 * 1000000000

-- The clock at the start; the error of a request, by its number and the clock when it is made, and
-- the clock when it has returned; and the context's error if it ends in a wait, by its number, the
-- clock and the delay, and the clock after it.
pub record Polling : Type 0 where
  pub started : Time
  pub request : ℕ → Time → Option Error × Time
  pub sleep : ℕ → Time → ℕ → Option Error × Time

-- The doubling at the end of a round.
unfoldable pub next_delay : ℕ → ℕ
next_delay delay =
    if ltb delay max_poll_interval
    then (if ltb max_poll_interval (delay * 2) then max_poll_interval else delay * 2)
    else delay

-- A round ends the loop, or leaves the clock for the next one.
pub data Round : Type 0 where
  done : Result (Unit {0}) → Round
  again : Time → Round

abbrev pub after_sleep : Option Error × Time → Round
after_sleep (none, t) = again t
after_sleep (some e, t) = done (err e)

module _ (P : Polling) where
  unfoldable pub after_request : ℕ → ℕ → Time → Option Error × Time → Round
  after_request i delay deadline (none, t) = done (ok tt)
  after_request i delay deadline (some e, t) =
      if ltb deadline t
      then done (err (wrapf "auth: classic CK validation timed out after %s; last error: %w" [] e))
      else after_sleep (P.sleep i t delay)

  -- The body of the loop up to the doubling.
  unfoldable pub round : ℕ → ℕ → Time → Time → Round
  unfolding after_request
  round i delay deadline t = after_request i delay deadline (P.request i t)

  -- The loop with fuel, from the request `i` on at a time.
  unfoldable pub poll_from : ℕ → ℕ → ℕ → Time → Time → Option (Result (Unit {0}))
  poll_from zero i delay deadline t = none
  poll_from (suc fuel) i delay deadline t = elim (round i delay deadline t) [
    | done r ↦ some r
    | again t' ↦ poll_from fuel (suc i) (next_delay delay) deadline t'
  ]

  abbrev pub of_fuel : Option (Result (Unit {0})) → Result (Unit {0})
  of_fuel none = panic "out of fuel"
  of_fuel (some r) = r

  unfoldable pub poll_until_validated : ℕ → ℕ → Result (Unit {0})
  poll_until_validated fuel timeout =
      of_fuel (poll_from fuel 0 poll_interval (P.started + timeout) P.started)
