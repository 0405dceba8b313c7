-- ===== src/Frp/Sessions.antt =====
-- frp/manager.go and frp/frpc_client.go: `RunFRPc` and the goroutines that it and `Execute` start, as
-- a step relation. A session is one call of `Execute`: its cancellation channel, its frp client, the
-- goroutine that runs the client and the one that watches the local port. What the port answers, the
-- kill signal and the return of a client are the environment's. The rounds in which a loop only
-- sleeps are left out, they change nothing; so is the exit of the process one second after the kill
-- signal, which ends all goroutines at once.
use k8s_explore.Base.{
  ℕ, Bool, true, false, not, ◌&&◌, ◌||◌, some, List, [], ◌∷◌, ◌≡◌, ◌≢◌, get_elem?, set,
  if◌then◌else◌,
}

-- The cancellation channel: in `closing` its `C` is closed and its callback, `svr.Close()`, is yet to
-- come; `sync.Once` holds back other callers of `Cancel` until then.
pub data Channel : Type 0 where
  waiting closing closed : Channel

abbrev pub is_cancelled : Channel → Bool
is_cancelled waiting = false
is_cancelled closing = true
is_cancelled closed = true

-- `Cancel`, up to its callback.
abbrev pub cancel : Channel → Channel
cancel waiting = closing
cancel closing = closing
cancel closed = closed

-- The goroutine of `Execute`: it runs the client, then it calls `CancelWithReason`.
pub data Runner : Type 0 where
  running returned ended : Runner

-- The goroutine that watches the local port: its loop, the test after it, and the cancelling.
pub data Watcher : Type 0 where
  polling deciding cancelling ended : Watcher

-- `service` says whether the frp client runs.
pub record Session : Type 0 where
  pub channel : Channel
  pub service : Bool
  pub runner : Runner
  pub watcher : Watcher

-- What `Execute` and the `go` statement after it start.
abbrev pub new_session : Session
new_session = record { channel = waiting; service = true; runner = running; watcher = polling }

-- Where `RunFRPc` stands: at the test of its loop, in the wait for the local port, at `Execute`, at
-- the wait for the cancellation of the newest session, or at its end.
pub data Phase : Type 0 where
  testing waiting_for_port executing awaiting exited panicked : Phase

-- The newest session stands first.
pub record Manager : Type 0 where
  pub killed : Bool
  pub phase : Phase
  pub sessions : List Session

abbrev pub start : Manager
start = record { killed = false; phase = testing; sessions = [] }

-- The test after the loop of the watch.
abbrev pub decide : Bool → Session → Session
decide killed x = record x {
  watcher =
      if not killed && not (is_cancelled x.channel) then Watcher.cancelling else Watcher.ended;
}

abbrev pub put : ℕ → Session → Manager → Manager
put i x s = record s { sessions = set s.sessions i x }

pub data Step (s : Manager) : Manager → Type 0 where
  kill : Step s (record s { killed = true })
  goes_on : s.phase ≡ testing → s.killed ≡ false → Step s (record s { phase = waiting_for_port })
  exits : s.phase ≡ testing → s.killed ≡ true → Step s (record s { phase = exited })
  wait_ends :
      (available : Bool)
      → s.phase ≡ waiting_for_port
      → (s.killed || available) ≡ true
      → Step s (record s { phase = executing })
  executes :
      s.phase ≡ executing
      → Step s (record s { phase = awaiting; sessions = new_session ∷ s.sessions })
  fails : s.phase ≡ executing → Step s (record s { phase = panicked })
  resumes :
      (x : Session)
      → s.phase ≡ awaiting
      → get_elem? s.sessions 0 ≡ some x
      → is_cancelled x.channel ≡ true
      → Step s (record s { phase = testing })
  watch_ends :
      (i : ℕ) (x : Session) (available : Bool)
      → get_elem? s.sessions i ≡ some x
      → x.watcher ≡ polling
      → (s.killed || is_cancelled x.channel || not available) ≡ true
      → Step s (put i (record x { watcher = deciding }) s)
  watch_decides :
      (i : ℕ) (x : Session)
      → get_elem? s.sessions i ≡ some x
      → x.watcher ≡ deciding
      → Step s (put i (decide s.killed x) s)
  watch_cancels :
      (i : ℕ) (x : Session)
      → get_elem? s.sessions i ≡ some x
      → x.watcher ≡ cancelling
      → x.channel ≢ closing
      → Step s (put i (record x { watcher = Watcher.ended; channel = cancel x.channel }) s)
  client_returns :
      (i : ℕ) (x : Session)
      → get_elem? s.sessions i ≡ some x
      → x.runner ≡ running
      → Step s (put i (record x { runner = returned; service = false }) s)
  runner_cancels :
      (i : ℕ) (x : Session)
      → get_elem? s.sessions i ≡ some x
      → x.runner ≡ returned
      → x.channel ≢ closing
      → Step s (put i (record x { runner = Runner.ended; channel = cancel x.channel }) s)
  calls_back :
      (i : ℕ) (x : Session)
      → get_elem? s.sessions i ≡ some x
      → x.channel ≡ closing
      → Step s (put i (record x { channel = closed; service = false }) s)

pub data Reach : Manager → Type 0 where
  begin : Reach start
  later : {s s' : Manager} → Reach s → Step s s' → Reach s'
