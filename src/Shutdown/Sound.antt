-- ===== src/Shutdown/Sound.antt =====
-- killsignal.go and kubefwd.go: what holds at each moment until the process ends.
use k8s_explore.Base.{
  ℕ, ◌+◌, ◌≤◌, Bool, true, false, Option, some, ◌≡◌, ◌⊎◌, inl, inr, refl, sym, ◌∙◌, arith,
  if◌then◌else◌,
}
use k8s_explore.Notify.{CancellationChannel, cancel, is_cancelled}
use k8s_explore.Shutdown.{
  System, Guard, Watcher, Closer, Announcer, starting, waiting, received, stopping, sleeping,
  exited, killed, done, awaits_watch, awaits_registry, clean, dialing, refused, asleep, announcing,
  announced, Libraries, Step, Steps, start, has_kill_signaled, goodbye, deliver, after_dial,
  after_look,
}

-- `Cancel` ran at a time that is `ago` past.
abbrev pub Cancelled : Bool → Option ℕ → ℕ → ℕ → Type 0
Cancelled closed at ago now = (closed ≡ true) × (t : ℕ) × (at ≡ some t) × (t + ago ≤ now)

-- What holds of the channel at each point of the goroutine of `init`.
abbrev pub GuardOk : Guard → Bool → Option ℕ → ℕ → Type 0
GuardOk starting closed at now = closed ≡ false
GuardOk waiting closed at now = closed ≡ false
GuardOk received closed at now = closed ≡ false
GuardOk stopping closed at now = Cancelled closed at 0 now
GuardOk (sleeping since) closed at now = Cancelled closed at 0 since × (since ≤ now)
GuardOk exited closed at now = Cancelled closed at goodbye now
GuardOk killed closed at now = Unit

abbrev pub CloserOk : Closer → Watcher → Bool → Type 0
CloserOk awaits_watch watcher finished = Unit
CloserOk awaits_registry watcher finished = watcher ≡ done
CloserOk clean watcher finished = (watcher ≡ done) × (finished ≡ true)

abbrev pub AnnouncerOk : Announcer → Bool → Bool → Type 0
AnnouncerOk announcing up finished = (up ≡ true) ⊎ (finished ≡ true)
AnnouncerOk announced up finished = (up ≡ true) ⊎ (finished ≡ true)
AnnouncerOk _ up finished = Unit

module _ {E : Type 0} where
  pub record Sound (s : System E) : Type 0 where
    pub once : s.channel.once ≡ s.channel.closed
    pub guard : GuardOk s.guard s.channel.closed s.cancelled_at s.clock
    pub watch : s.watcher ≡ done → s.channel.closed ≡ true
    pub registry : s.registry_done ≡ true → s.channel.closed ≡ true
    pub closer : CloserOk s.closer s.watcher s.registry_done
    pub announcer : AnnouncerOk s.announcer s.seen_up s.registry_done

  pub start-Sound : Sound start
  start-Sound = record {
    once = refl;
    guard = refl;
    watch = λ h. cc;
    registry = λ h. cc;
    closer = tt;
    announcer = tt;
  }

  guard_step :
      (s : System E) (guard : Guard) (pending : Bool)
      → GuardOk guard s.channel.closed s.cancelled_at s.clock
      → Sound s
      → Sound (record s { guard = guard; pending = pending })
  guard_step s guard pending fine v = record {
    once = v.once;
    guard = fine;
    watch = v.watch;
    registry = v.registry;
    closer = v.closer;
    announcer = v.announcer;
  }

  closer_step :
      (s : System E) (closer : Closer)
      → CloserOk closer s.watcher s.registry_done
      → Sound s
      → Sound (record s { closer = closer })
  closer_step s closer fine v = record {
    once = v.once;
    guard = v.guard;
    watch = v.watch;
    registry = v.registry;
    closer = fine;
    announcer = v.announcer;
  }

  announcer_step :
      (s : System E) (announcer : Announcer) (up : Bool)
      → AnnouncerOk announcer up s.registry_done
      → Sound s
      → Sound (record s { announcer = announcer; seen_up = up })
  announcer_step s next up fine v = record {
    once = v.once;
    guard = v.guard;
    watch = v.watch;
    registry = v.registry;
    closer = v.closer;
    announcer = fine;
  }

GuardOk-later :
    (g : Guard) (closed : Bool) (at : Option ℕ) (now n : ℕ)
    → GuardOk g closed at now
    → GuardOk g closed at (now + n)
GuardOk-later starting closed at now n h = h
GuardOk-later waiting closed at now n h = h
GuardOk-later received closed at now n h = h
GuardOk-later stopping closed at now n (c, t, e, le) = (c, t, e, omega arith)
GuardOk-later (sleeping since) closed at now n (h, le) = (h, omega arith)
GuardOk-later exited closed at now n (c, t, e, le) = (c, t, e, omega arith)
GuardOk-later killed closed at now n h = tt

deliver-GuardOk :
    (g : Guard) (pending : Bool) (closed : Bool) (at : Option ℕ) (now : ℕ)
    → GuardOk g closed at now
    → GuardOk (deliver g pending).0 closed at now
unfolding deliver
deliver-GuardOk starting pending closed at now h = tt
deliver-GuardOk waiting pending closed at now h = h
deliver-GuardOk received pending closed at now h = h
deliver-GuardOk stopping pending closed at now h = h
deliver-GuardOk (sleeping since) pending closed at now h = tt
deliver-GuardOk exited pending closed at now h = h
deliver-GuardOk killed pending closed at now h = tt

CloserOk-done :
    (c : Closer) (w : Watcher) (finished : Bool) → CloserOk c w finished → CloserOk c done finished
CloserOk-done awaits_watch w finished h = tt
CloserOk-done awaits_registry w finished h = refl
CloserOk-done clean w finished (a, b) = (refl, b)

CloserOk-finished :
    (c : Closer) (w : Watcher) (finished : Bool) → CloserOk c w finished → CloserOk c w true
CloserOk-finished awaits_watch w finished h = tt
CloserOk-finished awaits_registry w finished h = h
CloserOk-finished clean w finished (a, b) = (a, refl)

AnnouncerOk-finished :
    (a : Announcer) (up finished : Bool) → AnnouncerOk a up finished → AnnouncerOk a up true
AnnouncerOk-finished dialing up finished h = tt
AnnouncerOk-finished refused up finished h = tt
AnnouncerOk-finished (asleep since) up finished h = tt
AnnouncerOk-finished announcing up finished h = inr refl
AnnouncerOk-finished announced up finished h = inr refl

after_dial-AnnouncerOk :
    (up seen finished : Bool) → AnnouncerOk (after_dial up) (if up then true else seen) finished
after_dial-AnnouncerOk true seen finished = inl refl
after_dial-AnnouncerOk false seen finished = tt

after_look-AnnouncerOk :
    (up finished : Bool) (now : ℕ) → AnnouncerOk (after_look finished now) up finished
after_look-AnnouncerOk up true now = inr refl
after_look-AnnouncerOk up false now = tt

cancel_fresh :
    {E : Type 0} (c c' : CancellationChannel E (Unit {0})) {w : Unit {0}}
    → c.closed ≡ false
    → c.once ≡ c.closed
    → cancel c tt ≡ some (c', w)
    → (c'.once ≡ true) × (c'.closed ≡ true)
unfolding cancel
cancel_fresh c c' fresh same h = (ground arith, ground arith)

module _ {E : Type 0} (libs : Libraries E)
    (informer_law : (s : System E) → libs.informer_ends s → has_kill_signaled s ≡ true)
    (registry_law : (s : System E) → libs.registry_ends s → has_kill_signaled s ≡ true) where
  Step-Sound : (s t : System E) → Step libs s t → Sound s → Sound t
  unfolding has_kill_signaled is_cancelled cancel
  Step-Sound s _ (Step.ticks n) v = record {
    once = v.once;
    guard = GuardOk-later s.guard s.channel.closed s.cancelled_at s.clock n v.guard;
    watch = v.watch;
    registry = v.registry;
    closer = v.closer;
    announcer = v.announcer;
  }
  Step-Sound s _ Step.interrupted v =
      guard_step s (deliver s.guard s.pending).0 (deliver s.guard s.pending).1
        (deliver-GuardOk s.guard s.pending s.channel.closed s.cancelled_at s.clock v.guard) v
  Step-Sound s _ (Step.notifies h) v = guard_step s waiting s.pending (rw h at v.guard) v
  Step-Sound s _ (Step.receives h k) v = guard_step s received false (rw h at v.guard) v
  Step-Sound s _ (Step.cancels channel w h k) v =
      let (once, closed) = cancel_fresh s.channel channel (rw h at v.guard) v.once k in
      record {
        once = once ∙ sym closed;
        guard = (closed, s.clock, refl, omega arith);
        watch = λ e. closed;
        registry = λ e. closed;
        closer = v.closer;
        announcer = v.announcer;
      }
  Step-Sound s _ (Step.stops h) v =
      guard_step s (sleeping s.clock) s.pending (rw h at v.guard, omega arith) v
  Step-Sound s _ (Step.exits since h k) v =
      let ((c, t, e, le), _) : GuardOk (sleeping since) s.channel.closed s.cancelled_at s.clock =
        rw h at v.guard in
      guard_step s exited s.pending (c, t, e, omega arith) v
  Step-Sound s _ (Step.watch_ends h k) v = record {
    once = v.once;
    guard = v.guard;
    watch = λ e. informer_law s k;
    registry = v.registry;
    closer = CloserOk-done s.closer s.watcher s.registry_done v.closer;
    announcer = v.announcer;
  }
  Step-Sound s _ (Step.registry_ends k) v = record {
    once = v.once;
    guard = v.guard;
    watch = v.watch;
    registry = λ e. registry_law s k;
    closer = CloserOk-finished s.closer s.watcher s.registry_done v.closer;
    announcer = AnnouncerOk-finished s.announcer s.seen_up s.registry_done v.announcer;
  }
  Step-Sound s _ (Step.closer_goes_on h k) v = closer_step s awaits_registry k v
  Step-Sound s _ (Step.closes h k) v = closer_step s clean (rw h at v.closer, k) v
  Step-Sound s _ (Step.dials up h) v =
      announcer_step s (after_dial up) (if up then true else s.seen_up)
        (after_dial-AnnouncerOk up s.seen_up s.registry_done) v
  Step-Sound s _ (Step.looks h) v =
      announcer_step s (after_look s.registry_done s.clock) s.seen_up
        (after_look-AnnouncerOk s.seen_up s.registry_done s.clock) v
  Step-Sound s _ (Step.wakes since h k) v = announcer_step s dialing s.seen_up tt v
  Step-Sound s _ (Step.announces h) v = announcer_step s announced s.seen_up (rw h at v.announcer) v

  pub Steps-Sound : (s t : System E) → Steps libs s t → Sound s → Sound t
  Steps-Sound s _ Steps.stay v = v
  Steps-Sound s u (Steps.more {t} steps alive last) v =
      Step-Sound t u last (Steps-Sound s t steps v)
