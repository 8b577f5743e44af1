-- ===== src/Auth/Loopback/Laws.antt =====
-- What a wait on the loopback server returns.
use ovh_cli.Prelude.{ℕ, Option, none, some, List, [], ◌∷◌, ◌≡◌, ◌≢◌, refl, ◌≤◌, ◌<◌}
use ovh_cli.Prelude.{arith, eq_iff, subst}
use ovh_cli.Errors.{Error, errorf}
use ovh_cli.Auth.Loopback.{
  Duration, ahead, behind, loopback_timeout_max, LoopbackResult, LoopbackServer, Query, result_of,
  offer, handle_callback, capped, Ready, received, cancelled, elapsed, failed, wait, close, receive,
  Step, callback, waited, closing, Reachable, made, stepped,
}

-- A result without an error has a code.
abbrev pub HasCode : LoopbackResult → Type 0
HasCode r = r.error ≡ none → r.code ≢ ""

abbrev IsSound : Option LoopbackResult → Type 0
IsSound none = Unit
IsSound (some r) = HasCode r

result_of-HasCode : (q : Query) → HasCode (result_of q)
unfolding result_of
result_of-HasCode q h = ground (arith, eq_iff (q "code") "")

offer-IsSound :
    (r : LoopbackResult) (o : Option LoopbackResult) → HasCode r → IsSound o → IsSound (offer r o)
offer-IsSound r none h k = h
offer-IsSound r (some waiting) h k = k

receive-IsSound :
    (s : LoopbackServer) (o : Option LoopbackResult) (r : LoopbackResult) (s' : LoopbackServer)
    → receive s o ≡ some (r, s')
    → IsSound o
    → HasCode r × IsSound s'.result
unfolding receive
receive-IsSound s none r s' h k = cc
receive-IsSound s (some w) r s' h k =
    let e : w ≡ r = cc in let e' : none ≡ s'.result = cc in (subst HasCode e k, subst IsSound e' tt)

failed-HasCode : (e : Error) (r : LoopbackResult) → failed e ≡ r → HasCode r
failed-HasCode e r h k = cc

wait-IsSound :
    (timeout : Duration) (ready : Ready) (s : LoopbackServer) (r : LoopbackResult)
    (s' : LoopbackServer)
    → wait timeout ready s ≡ some (r, s')
    → IsSound s.result
    → HasCode r × IsSound s'.result
unfolding wait
wait-IsSound timeout received s r s' h k = receive-IsSound s s.result r s' h k
wait-IsSound timeout (cancelled e) s r s' h k =
    let q : s.result ≡ s'.result = cc in (failed-HasCode e r (cc), subst IsSound q k)
wait-IsSound timeout (elapsed t) s r s' h k =
    let q : s.result ≡ s'.result = ground arith in
    (
      failed-HasCode (errorf "auth: loopback callback timed out after %s" []) r (ground arith),
      subst IsSound q k,
    )

Step-IsSound : {s s' : LoopbackServer} → Step s s' → IsSound s.result → IsSound s'.result
unfolding handle_callback close
Step-IsSound {s = s} (callback q) k = offer-IsSound (result_of q) s.result (result_of-HasCode q) k
Step-IsSound {s = s} (waited timeout ready r s' e) k = (wait-IsSound timeout ready s r s' e k).1
Step-IsSound {s = s} (closing shutdown) k =
    let e : s.result ≡ (close shutdown s).1.result = ground arith in subst IsSound e k

Reachable-IsSound : {s : LoopbackServer} → Reachable s → IsSound s.result
Reachable-IsSound (made addr) = tt
Reachable-IsSound (stepped r st) = Step-IsSound st (Reachable-IsSound r)

-- Whatever callbacks, waits and closings a server has gone through, a wait that returns without an
-- error returns a code that is not empty.
pub wait-HasCode :
    (s : LoopbackServer) (timeout : Duration) (ready : Ready) (r : LoopbackResult)
    (s' : LoopbackServer)
    → Reachable s
    → wait timeout ready s ≡ some (r, s')
    → r.error ≡ none
    → r.code ≢ ""
wait-HasCode s timeout ready r s' reach h =
    (wait-IsSound timeout ready s r s' h (Reachable-IsSound reach)).0

-- The callbacks that arrive between two waits.
pub deliver : List Query → LoopbackServer → LoopbackServer
deliver [] s = s
deliver (q ∷ rest) s = deliver rest (handle_callback q s).1

deliver-waiting :
    (qs : List Query) (w : LoopbackResult) (s : LoopbackServer)
    → s.result ≡ some w
    → deliver qs s ≡ s
unfolding deliver handle_callback
deliver-waiting [] w s h = refl
deliver-waiting (q ∷ qs) w s h =
    let e : (handle_callback q s).1 ≡ s = ground arith in rw e (deliver-waiting qs w s h)

delivered :
    (s : LoopbackServer) (q : Query) (later : List Query)
    → s.result ≡ none
    → deliver (q ∷ later) s ≡ record s { result = some (result_of q) }
unfolding deliver handle_callback
delivered s q later h =
    let e : (handle_callback q s).1 ≡ record s { result = some (result_of q) } = ground arith in
    rw e (deliver-waiting later (result_of q) (record s { result = some (result_of q) }) refl)

-- If no result is waiting, then after any callbacks the next wait that takes a result returns what
-- the first of them carried, and the server is again as it was before them.
pub wait-deliver :
    (s : LoopbackServer) (timeout : Duration) (q : Query) (later : List Query)
    → s.result ≡ none
    → wait timeout received (deliver (q ∷ later) s) ≡ some (result_of q, s)
unfolding wait receive
wait-deliver s timeout q later h = rw (delivered s q later h) (ground arith)

-- The timer of a wait has fired five minutes after the wait began at the latest, whatever timeout
-- was asked for: the wait then returns an error and leaves the server as it was.
pub wait_times_out :
    (s : LoopbackServer) (timeout : Duration) (t : ℕ)
    → loopback_timeout_max ≤ t
    → wait timeout (elapsed t) s
      ≡ some (failed (errorf "auth: loopback callback timed out after %s" []), s)
unfolding wait capped
wait_times_out s (ahead m) t h = ground arith
wait_times_out s (behind m) t h = ground arith

-- A timeout of at most five minutes is kept.
wait_keeps_timeout :
    (s : LoopbackServer) (n t : ℕ)
    → n ≤ loopback_timeout_max
    → t < n
    → wait (ahead n) (elapsed t) s ≡ none
unfolding wait capped
wait_keeps_timeout s n t h k = ground arith
