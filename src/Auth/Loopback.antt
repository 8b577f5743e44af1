-- ===== src/Auth/Loopback.antt =====
-- internal/auth/oauth.go: the loopback server that receives the OAuth2 callback. The channel
-- `resultCh` has room for one result. Each send, receive and shutdown is one step.
pub mod Laws
use ovh_cli.Prelude.{
  ℕ, String, ◌<>◌, ◌*◌, Bool, true, false, not, Option, none, some, List, [], ◌∷◌, ◌==◌,
}
use ovh_cli.Prelude.{◌||◌, ltb, eqb, if◌then◌else◌}
use ovh_cli.Errors.{Error, Result, ok, errorf, wrap_err, ◌>>=◌}
use ovh_cli.Prelude.{◌≡◌}

-- A `time.Duration`, which is signed; `behind n` is -(n + 1).
pub data Duration : Type 0 where
  ahead : ℕ → Duration
  behind : ℕ → Duration

-- Five minutes in nanoseconds.
abbrev pub loopback_timeout_max : ℕ
loopback_timeout_max = 5 * 60 * 1000000000

pub record LoopbackResult : Type 0 where
  pub code : String
  pub state : String
  pub error : Option Error

pub record LoopbackServer : Type 0 where
  pub addr : String
  pub result : Option LoopbackResult
  pub closed : Bool

-- `NewLoopbackServer`, with what binding the listener gives: an address.
unfoldable pub new_loopback_server : Result String → Result LoopbackServer
new_loopback_server listened = wrap_err "auth: bind loopback: %w" [] listened >>= λ addr.
    ok (record { addr = addr; result = none; closed = false })

unfoldable pub redirect_uri : LoopbackServer → String
redirect_uri s = "http://" <> (s.addr <> "/callback")

-- `url.Values.Get`: a key that is not there reads as "".
abbrev pub Query : Type 0
Query = String → String

callback_error : Query → Option Error
callback_error q =
    if not (q "error" == "")
    then some (errorf "auth: OAuth2 callback error %q: %s" (q "error" ∷ q "error_description" ∷ []))
    else if q "code" == ""
    then some (errorf "auth: OAuth2 callback missing code" [])
    else none

-- What a callback carries.
unfoldable pub result_of : Query → LoopbackResult
unfolding callback_error
result_of q = record { code = q "code"; state = q "state"; error = callback_error q }

-- A send that does not block: a result that is waiting stays.
abbrev pub offer : LoopbackResult → Option LoopbackResult → Option LoopbackResult
offer res none = some res
offer res (some waiting) = some waiting

page : Option Error → String
page none =
    "<html><body><h1>ovh: authentication complete</h1><p>You may close this tab.</p></body></html>"
page (some e) =
    "<html><body><h1>ovh: authentication failed</h1><p>You may close this tab.</p></body></html>"

-- `handleCallback`: the page that is served, and the server after it.
unfoldable pub handle_callback : Query → LoopbackServer → String × LoopbackServer
unfolding page
handle_callback q s =
    let res = result_of q in (page res.error, record s { result = offer res s.result })

-- `if timeout > loopbackTimeoutMax || timeout <= 0 { timeout = loopbackTimeoutMax }`
unfoldable pub capped : Duration → ℕ
capped (ahead n) = if ltb loopback_timeout_max n || eqb n 0 then loopback_timeout_max else n
capped (behind n) = loopback_timeout_max

-- The case that the `select` of `Wait` takes: a result, the end of the context, or the timer after
-- so many nanoseconds.
pub data Ready : Type 0 where
  received : Ready
  cancelled : Error → Ready
  elapsed : ℕ → Ready

abbrev pub failed : Error → LoopbackResult
failed e = record { code = ""; state = ""; error = some e }

unfoldable pub receive :
    LoopbackServer → Option LoopbackResult → Option (LoopbackResult × LoopbackServer)
receive s none = none
receive s (some r) = some (r, record s { result = none })

-- `Wait`: its three results, and the server after it; `none` where the case is not ready.
unfoldable pub wait : Duration → Ready → LoopbackServer → Option (LoopbackResult × LoopbackServer)
unfolding receive
wait timeout received s = receive s s.result
wait timeout (cancelled e) s = some (failed e, s)
wait timeout (elapsed t) s =
    if ltb t (capped timeout)
    then none
    else some (failed (errorf "auth: loopback callback timed out after %s" []), s)

-- `Close`, with what `Shutdown` returns; it runs once.
unfoldable pub close : Option Error → LoopbackServer → Option Error × LoopbackServer
close shutdown s = if s.closed then (none, s) else (shutdown, record s { closed = true })

-- The steps that the handler, the waiting command and its deferred call take, in any order.
pub data Step (s : LoopbackServer) : LoopbackServer → Type 0 where
  callback : (q : Query) → Step s (handle_callback q s).1
  waited :
      (timeout : Duration) (ready : Ready) (r : LoopbackResult) (s' : LoopbackServer)
      → wait timeout ready s ≡ some (r, s')
      → Step s s'
  closing : (shutdown : Option Error) → Step s (close shutdown s).1

-- A server that was made and has taken steps.
pub data Reachable : LoopbackServer → Type 0 where
  made : (addr : String) → Reachable (record { addr = addr; result = none; closed = false })
  stepped : {s s' : LoopbackServer} → Reachable s → Step s s' → Reachable s'
