-- ===== src/Shutdown.antt =====
-- frp/notify/killsignal/killsignal.go and the goroutines of `Execute` in kubefwd/kubefwd.go: how the
-- process ends. The goroutine of `init` waits for a signal, cancels the channel that everyone reads,
-- and ends the process after a sleep; others wait for the watch of the services and for the registry of
-- kubefwd, and for the port of the frp server. Times are milliseconds of one clock. `os/signal`
-- documents that `Notify` keeps a signal from ending the process, that a full buffer drops it, and that
-- after `Stop` it ends the process again. The informer and the registry are libraries outside the
-- repository: when they end is the parameter `Libraries`.
pub mod Sound
pub mod Exit
use k8s_explore.Base.{ℕ, ◌+◌, ◌≤◌, Bool, true, false, Option, none, some, ◌≡◌, if◌then◌else◌}
use k8s_explore.Notify.{CancellationChannel, new_channel, cancel, is_cancelled}

-- The goroutine of `init`, and with it the process: before `Notify`, at the receive, at `Cancel`, at
-- `signal.Stop`, in the sleep since a time, after `os.Exit(0)`, or ended by a signal that nobody receives.
pub data Guard : Type 0 where
  starting waiting received stopping : Guard
  sleeping : ℕ → Guard
  exited killed : Guard

-- The goroutine that watches the services: in `watchServiceEvents`, or after `nsWatchesDone.Done()`.
pub data Watcher : Type 0 where
  watching done : Watcher

-- The goroutine that waits for it and for the registry, and logs "Clean exit".
pub data Closer : Type 0 where
  awaits_watch awaits_registry clean : Closer

-- The goroutine of `WaitUntilKubeTunnelIsUp`: before `IsAvailable`, at the test of `done`, in the sleep
-- since a time, before `channel <- nil`, and after it.
pub data Announcer : Type 0 where
  dialing refused : Announcer
  asleep : ℕ → Announcer
  announcing announced : Announcer

-- `cancelled_at` and `seen_up` only record what has happened: when `Cancel` ran, and whether a call of
-- `IsAvailable` was true.
pub record System (E : Type 0) : Type 0 where
  pub channel : CancellationChannel E (Unit {0})
  pub guard : Guard
  pub pending : Bool
  pub watcher : Watcher
  pub closer : Closer
  pub announcer : Announcer
  pub registry_done : Bool
  pub clock : ℕ
  pub cancelled_at : Option ℕ
  pub seen_up : Bool

module _ {E : Type 0} where
  abbrev pub start : System E
  start = record {
    channel = new_channel none;
    guard = starting;
    pending = false;
    watcher = watching;
    closer = awaits_watch;
    announcer = dialing;
    registry_done = false;
    clock = 0;
    cancelled_at = none;
    seen_up = false;
  }

  -- `HasKillSignaled`
  unfoldable pub has_kill_signaled : System E → Bool
  unfolding is_cancelled
  has_kill_signaled s = is_cancelled s.channel

-- SIGINT or SIGTERM: before `Notify` and after `Stop` it ends the process.
unfoldable pub deliver : Guard → Bool → Guard × Bool
deliver starting pending = (killed, pending)
deliver waiting pending = (waiting, true)
deliver received pending = (received, true)
deliver stopping pending = (stopping, true)
deliver (sleeping since) pending = (killed, pending)
deliver exited pending = (exited, pending)
deliver killed pending = (killed, pending)

-- `time.Second * 1` of `init`, `200 * time.Millisecond` of `WaitUntilKubeTunnelIsUp`.
abbrev pub goodbye : ℕ
goodbye = 1000

abbrev pub nap : ℕ
nap = 200

abbrev pub running : Guard → Bool
running exited = false
running killed = false
running _ = true

-- The loop of `WaitUntilKubeTunnelIsUp` after `IsAvailable`, and after `IsChannelClosed(done)`.
abbrev pub after_dial : Bool → Announcer
after_dial up = if up then announcing else refused

abbrev pub after_look : Bool → ℕ → Announcer
after_look closed now = if closed then announcing else asleep now

-- Whether the informer's `Run` may return in a state, and whether the registry may close its channel.
pub record Libraries (E : Type 0) : Type 1 where
  pub informer_ends : System E → Type 0
  pub registry_ends : System E → Type 0

module _ {E : Type 0} (libs : Libraries E) where
  -- The steps of the goroutines, of the libraries and of the clock.
  pub data Step (s : System E) : System E → Type 0 where
    ticks : (n : ℕ) → Step s (record s { clock = s.clock + n })
    interrupted : Step s (record s {
      guard = (deliver s.guard s.pending).0;
      pending = (deliver s.guard s.pending).1;
    })
    notifies : s.guard ≡ starting → Step s (record s { guard = waiting })
    receives :
        s.guard ≡ waiting
        → s.pending ≡ true
        → Step s (record s { guard = received; pending = false })
    cancels :
        (channel : CancellationChannel E (Unit {0})) (w : Unit {0})
        → s.guard ≡ received
        → cancel s.channel tt ≡ some (channel, w)
        → Step s (record s { guard = stopping; channel = channel; cancelled_at = some s.clock })
    stops : s.guard ≡ stopping → Step s (record s { guard = sleeping s.clock })
    exits :
        (since : ℕ)
        → s.guard ≡ sleeping since
        → since + goodbye ≤ s.clock
        → Step s (record s { guard = exited })
    watch_ends : s.watcher ≡ watching → libs.informer_ends s → Step s (record s { watcher = done })
    registry_ends : libs.registry_ends s → Step s (record s { registry_done = true })
    closer_goes_on :
        s.closer ≡ awaits_watch → s.watcher ≡ done → Step s (record s { closer = awaits_registry })
    closes :
        s.closer ≡ awaits_registry → s.registry_done ≡ true → Step s (record s { closer = clean })
    dials :
        (up : Bool)
        → s.announcer ≡ dialing
        → Step s (record s { announcer = after_dial up; seen_up = if up then true else s.seen_up })
    looks :
        s.announcer ≡ refused → Step s (record s { announcer = after_look s.registry_done s.clock })
    wakes :
        (since : ℕ)
        → s.announcer ≡ asleep since
        → since + nap ≤ s.clock
        → Step s (record s { announcer = dialing })
    announces : s.announcer ≡ announcing → Step s (record s { announcer = announced })

  -- Steps of a process that runs.
  pub data Steps (s : System E) : System E → Type 0 where
    stay : Steps s s
    more : {t u : System E} → Steps s t → running t.guard ≡ true → Step t u → Steps s u
