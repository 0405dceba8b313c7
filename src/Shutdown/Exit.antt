-- ===== src/Shutdown/Exit.antt =====
-- killsignal.go and kubefwd.go: what has happened when the process ends, and what it waits for.
use k8s_explore.Base.{ℕ, ◌+◌, ◌≤◌, Bool, true, Option, ◌≡◌, ◌≢◌, ◌⊎◌, inl, inr, refl, arith}
use k8s_explore.Notify.{is_cancelled}
use k8s_explore.Shutdown.{
  System, Guard, Watcher, Closer, Announcer, starting, waiting, received, stopping, sleeping,
  exited, killed, done, awaits_watch, awaits_registry, clean, dialing, refused, asleep, announcing,
  announced, Libraries, Step, Steps, start, has_kill_signaled, running, goodbye,
}
use k8s_explore.Shutdown.Sound.{Cancelled, GuardOk, CloserOk, AnnouncerOk, Steps-Sound, start-Sound}

at_exit :
    {closed : Bool} {at : Option ℕ} {now : ℕ} (g : Guard)
    → GuardOk g closed at now
    → (g ≢ exited) ⊎ Cancelled closed at goodbye now
at_exit exited fine = inr fine
at_exit starting fine = inl (λ e. cc)
at_exit waiting fine = inl (λ e. cc)
at_exit received fine = inl (λ e. cc)
at_exit stopping fine = inl (λ e. cc)
at_exit (sleeping since) fine = inl (λ e. cc)
at_exit killed fine = inl (λ e. cc)

at_close :
    {watcher : Watcher} {finished : Bool} (c : Closer)
    → CloserOk c watcher finished
    → (c ≢ clean) ⊎ ((watcher ≡ done) × (finished ≡ true))
at_close clean fine = inr fine
at_close awaits_watch fine = inl (λ e. cc)
at_close awaits_registry fine = inl (λ e. cc)

at_message :
    {up finished : Bool} (a : Announcer)
    → AnnouncerOk a up finished
    → (a ≢ announced) ⊎ ((up ≡ true) ⊎ (finished ≡ true))
at_message announced fine = inr fine
at_message dialing fine = inl (λ e. cc)
at_message refused fine = inl (λ e. cc)
at_message (asleep since) fine = inl (λ e. cc)
at_message announcing fine = inl (λ e. cc)

module _ {E : Type 0} (libs : Libraries E)
    (informer_law : (s : System E) → libs.informer_ends s → has_kill_signaled s ≡ true)
    (registry_law : (s : System E) → libs.registry_ends s → has_kill_signaled s ≡ true) where
  -- Whatever the goroutines do, if the informer and the registry end only after the kill signal:
  -- either the process has not exited by itself, or the kill signal stands and `Cancel` was called a
  -- second ago or more; either "Clean exit" is not logged yet, or the watch of the services and the
  -- registry have ended and the kill signal stands; either the message that the tunnel is up is not
  -- sent yet, or a call of `IsAvailable` was true, or the registry is done and the kill signal stands.
  pub exit_lem :
      (s : System E)
      → Steps libs start s
      → ((s.guard ≢ exited) ⊎ Cancelled (has_kill_signaled s) s.cancelled_at goodbye s.clock)
        × ((s.closer ≢ clean)
            ⊎ ((s.watcher ≡ done) × (s.registry_done ≡ true) × (has_kill_signaled s ≡ true)))
        × ((s.announcer ≢ announced)
            ⊎ (s.seen_up ≡ true)
            ⊎ ((s.registry_done ≡ true) × (has_kill_signaled s ≡ true)))
  unfolding has_kill_signaled is_cancelled
  exit_lem s steps =
      let v = Steps-Sound libs informer_law registry_law start s steps start-Sound in
      (
        at_exit s.guard v.guard,
        elim (at_close s.closer v.closer) [
          | inl not_yet ↦ inl not_yet
          | inr (stopped, finished) ↦ inr (stopped, finished, v.registry finished)
        ],
        elim (at_message s.announcer v.announcer) [
          | inl not_yet ↦ inl not_yet
          | inr seen ↦ elim seen [
            | inl up ↦ inr (inl up)
            | inr finished ↦ inr (inr (finished, v.registry finished))
          ]
        ],
      )

  -- A second of the clock, and the end.
  sleep_over :
      (s : System E) (since : ℕ)
      → s.guard ≡ sleeping since
      → since ≤ s.clock
      → Steps libs s (record s { clock = s.clock + goodbye; guard = exited })
  sleep_over s since h le =
      let later : System E = record s { clock = s.clock + goodbye } in
      Steps.more {t = later} (Steps.more {t = s} Steps.stay (rw h refl) (Step.ticks goodbye))
        (rw h refl) (Step.exits since h (omega arith))

  abbrev Exits : System E → Type 0
  Exits s =
      (t : System E) × Steps libs s t
      × (t.guard ≡ exited)
      × (t.clock ≡ s.clock + goodbye)
      × (t.watcher ≡ s.watcher)
      × (t.registry_done ≡ s.registry_done)
      × (t.closer ≡ s.closer)

  Steps-trans : {s t u : System E} → Steps libs s t → Steps libs t u → Steps libs s u
  Steps-trans first Steps.stay = first
  Steps-trans first (Steps.more rest alive last) = Steps.more (Steps-trans first rest) alive last

  exit_from :
      (s : System E) (g : Guard)
      → s.guard ≡ g
      → GuardOk g s.channel.closed s.cancelled_at s.clock
      → s.channel.closed ≡ true
      → running g ≡ true
      → Exits s
  exit_from s starting at open_ closed alive = absurd cc
  exit_from s waiting at open_ closed alive = absurd cc
  exit_from s received at open_ closed alive = absurd cc
  exit_from s stopping at fine closed alive =
      let asleep_now : System E = record s { guard = sleeping s.clock } in
      (
        record asleep_now { clock = s.clock + goodbye; guard = exited },
        Steps-trans (Steps.more {t = s} {u = asleep_now} Steps.stay (rw at refl) (Step.stops at))
            (sleep_over asleep_now s.clock refl (omega arith)),
        refl,
        refl,
        refl,
        refl,
        refl,
      )
  exit_from s (sleeping since) at (fine, le) closed alive = (
    record s { clock = s.clock + goodbye; guard = exited },
    sleep_over s since at le,
    refl,
    refl,
    refl,
    refl,
    refl,
  )
  exit_from s exited at fine closed alive = absurd cc
  exit_from s killed at fine closed alive = absurd cc

  -- The process does not wait for the watch or the registry, where these end only after the kill
  -- signal: from any moment at which the kill signal stands and the process runs, it can exit within a
  -- second, and nothing need happen meanwhile to the watch, to the registry or to the goroutine that
  -- waits for them.
  pub exit_unwaited :
      (s : System E)
      → Steps libs start s
      → has_kill_signaled s ≡ true
      → running s.guard ≡ true
      → (t : System E) × Steps libs s t
        × (t.guard ≡ exited)
        × (t.clock ≡ s.clock + goodbye)
        × (t.watcher ≡ s.watcher)
        × (t.registry_done ≡ s.registry_done)
        × (t.closer ≡ s.closer)
  unfolding has_kill_signaled is_cancelled
  exit_unwaited s steps signalled alive =
      exit_from s s.guard refl
        (Steps-Sound libs informer_law registry_law start s steps start-Sound).guard signalled alive
