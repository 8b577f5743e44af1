-- ===== src/Auth/Flow/Poll/Laws.antt =====
-- The polling loop ends, and what its end says.
use ovh_cli.Prelude.{
  ℕ, zero, suc, ◌+◌, ◌*◌, ◌≤◌, ◌<◌, ◌≡◌, ◌∙◌, sym, refl, none, some, arith, ◌⊎◌, inl, inr,
}
use ovh_cli.Errors.{Result, ok}
use ovh_cli.Auth.Credentials.{Time}
use ovh_cli.Auth.Flow.Poll.{
  Polling, Round, done, again, poll_interval, max_poll_interval, next_delay, round, after_request,
  poll_from, poll_until_validated,
}

-- The delay starts at two seconds and never passes thirty.
pub next_delay_bounds :
    (d : ℕ)
    → poll_interval ≤ d
    → d ≤ max_poll_interval
    → (d ≤ next_delay d) × (next_delay d ≤ max_poll_interval)
unfolding next_delay
next_delay_bounds d h k = ground arith

-- The sum of the next `n` delays.
unfoldable pub budget : ℕ → ℕ → ℕ
budget zero d = 0
budget (suc n) d = d + budget n (next_delay d)

-- Time does not run backwards, and a wait that the context does not end lasts as long as asked for.
pub record IsClock (P : Polling) : Type 0 where
  pub request_later : (i : ℕ) (t : Time) → t ≤ (P.request i t).1
  pub sleep_lasts :
      (i : ℕ) (t : Time) (d : ℕ) → (P.sleep i t d).0 ≡ none → t + d ≤ (P.sleep i t d).1

Round-cases : (o : Round) → ((r : Result (Unit {0})) × (o ≡ done r)) ⊎ ((t : Time) × (o ≡ again t))
Round-cases (done r) = inl (r, refl)
Round-cases (again t) = inr (t, refl)

module _ (P : Polling) (n i d : ℕ) (deadline t : Time) where
  poll_from-done :
      (r : Result (Unit {0}))
      → round P i d deadline t ≡ done r
      → poll_from P (suc n) i d deadline t ≡ some r
  unfolding poll_from
  poll_from-done r e = rw (e, poll_from)

  poll_from-again :
      (t' : Time)
      → round P i d deadline t ≡ again t'
      → poll_from P (suc n) i d deadline t ≡ poll_from P n (suc i) (next_delay d) deadline t'
  unfolding poll_from
  poll_from-again t' e = rw (e, poll_from)

module _ (P : Polling) (C : IsClock P) where
  -- What a round that is not the last has done to the clock.
  round-again :
      (i d : ℕ) (deadline t t' : Time)
      → round P i d deadline t ≡ again t'
      → ((P.request i t).1 ≤ deadline) × (t + d ≤ t')
  unfolding round after_request
  round-again i d deadline t t' h =
      ground (arith, C.request_later i t, C.sleep_lasts i (P.request i t).1 d)

  -- The loop ends with fuel for as many waits as the deadline allows, and one request more.
  poll_from-total :
      (n i d : ℕ) (deadline t : Time)
      → deadline < t + budget n d
      → (r : Result (Unit {0})) × (poll_from P (suc n) i d deadline t ≡ some r)
  unfolding budget
  poll_from-total zero i d deadline t h = elim (Round-cases (round P i d deadline t)) [
    | inl (r, e) ↦ (r, poll_from-done P _ i d deadline t r e)
    | inr (t', e) ↦ absurd (ground (arith, round-again i d deadline t t' e, C.request_later i t))
  ]
  poll_from-total (suc n) i d deadline t h = elim (Round-cases (round P i d deadline t)) [
    | inl (r, e) ↦ (r, poll_from-done P _ i d deadline t r e)
    | inr (t', e) ↦
        let later = round-again i d deadline t t' e in
        let (r, q) = poll_from-total n (suc i) (next_delay d) deadline t' (omega arith) in
        (r, poll_from-again P _ i d deadline t t' e ∙ q)
  ]

  -- Polling for ten minutes ends, with at most 25 requests, if the clock does not run backwards and a
  -- wait that the context does not end lasts as long as asked for.
  pub poll_until_validated-total :
      (r : Result (Unit {0})) × (poll_from P 25 0 poll_interval
          (P.started + 600 * 1000000000)
          P.started
        ≡ some r)
  unfolding budget next_delay
  poll_until_validated-total = poll_from-total 24 0 poll_interval _ P.started (omega arith)

-- A request that OVH accepts.
abbrev pub IsAccepted : Polling → Type 0
IsAccepted P = (i : ℕ) × (t : Time) × ((P.request i t).0 ≡ none)

module _ (P : Polling) where
  round-accepted :
      (i d : ℕ) (deadline t : Time)
      → round P i d deadline t ≡ done (ok tt)
      → (P.request i t).0 ≡ none
  unfolding round
  round-accepted i d deadline t h = ground arith

  -- Polling succeeds only if a request was accepted.
  poll_from-IsAccepted :
      (n i d : ℕ) (deadline t : Time) → poll_from P n i d deadline t ≡ some (ok tt) → IsAccepted P
  unfolding poll_from
  poll_from-IsAccepted zero i d deadline t h = cc
  poll_from-IsAccepted (suc n) i d deadline t h = elim (Round-cases (round P i d deadline t)) [
    | inl (r, e) ↦ (i, t, round-accepted i d deadline t (ground arith))
    | inr (t', e) ↦
        poll_from-IsAccepted n (suc i) (next_delay d) deadline t'
          (sym (poll_from-again P n i d deadline t t' e) ∙ h)
  ]

  pub poll_until_validated-IsAccepted :
      (n timeout : ℕ) → poll_until_validated P n timeout ≡ ok tt → IsAccepted P
  unfolding poll_until_validated
  poll_until_validated-IsAccepted n timeout h =
      poll_from-IsAccepted n 0 poll_interval (P.started + timeout) P.started (ground arith)

  module _ (deadline from : Time)
      (accepted : (i : ℕ) (t : Time) → from ≤ t → (P.request i t).0 ≡ none)
      (prompt : (i : ℕ) (t : Time) → t ≤ from → (P.request i t).1 ≤ deadline)
      (undisturbed : (i : ℕ) (t : Time) (d : ℕ) → (P.sleep i t d).0 ≡ none) where
    round_ends_well :
        (i d : ℕ) (t : Time) (r : Result (Unit {0})) → round P i d deadline t ≡ done r → r ≡ ok tt
    unfolding round
    round_ends_well i d t r h =
        ground (arith, accepted i t, prompt i t, undisturbed i (P.request i t).1 d)

    poll_from_ends_well :
        (n i d : ℕ) (t : Time) (r : Result (Unit {0}))
        → poll_from P n i d deadline t ≡ some r
        → r ≡ ok tt
    unfolding poll_from
    poll_from_ends_well zero i d t r h = cc
    poll_from_ends_well (suc n) i d t r h = elim (Round-cases (round P i d deadline t)) [
      | inl (o, e) ↦ round_ends_well i d t r (ground arith)
      | inr (t', e) ↦
          poll_from_ends_well n (suc i) (next_delay d) t' r
            (sym (poll_from-again P n i d deadline t t' e) ∙ h)
    ]

-- Polling for ten minutes with 25 requests succeeds, if from some time on every request is accepted,
-- a request made until then returns before the ten minutes are over, the context does not end, the
-- clock does not run backwards, and a wait lasts as long as asked for.
pub poll_until_validated_succeeds :
    (P : Polling) (from : Time)
    → IsClock P
    → ((i : ℕ) (t : Time) → from ≤ t → (P.request i t).0 ≡ none)
    → ((i : ℕ) (t : Time) → t ≤ from → (P.request i t).1 ≤ P.started + 600 * 1000000000)
    → ((i : ℕ) (t : Time) (d : ℕ) → (P.sleep i t d).0 ≡ none)
    → poll_until_validated P 25 (600 * 1000000000) ≡ ok tt
unfolding poll_until_validated
poll_until_validated_succeeds P from C accepted prompt undisturbed =
    let (r, e) = poll_until_validated-total P C in
    rw e (
      poll_from_ends_well P (P.started + 600 * 1000000000) from accepted prompt undisturbed 25 0
        poll_interval P.started r e)
