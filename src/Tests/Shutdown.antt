-- ===== src/Tests/Shutdown.antt =====
-- killsignal.go and the goroutines of kubefwd.go at concrete steps.
use k8s_explore.Base.{String, true, false, some, none, ◌≡◌, ◌≢◌, ◌⊎◌, refl, arith}
use k8s_explore.Notify.{cancel, is_cancelled}
use k8s_explore.Shutdown.{
  System, Closer, received, waiting, stopping, sleeping, exited, done, clean, announced, refused,
  announcing, Libraries, Step, Steps, start, has_kill_signaled, deliver, goodbye,
}
use k8s_explore.Shutdown.Sound.{Cancelled}
use k8s_explore.Shutdown.Exit.{exit_lem}

-- Libraries that end as soon as the kill signal stands.
abbrev prompt : Libraries String
prompt = record {
  informer_ends = λ s. has_kill_signaled s ≡ true;
  registry_ends = λ s. has_kill_signaled s ≡ true;
}

-- The signal comes at 7, and `Cancel` at 9.
abbrev signalled : System String
signalled = record start {
  channel = record { once = true; closed = true; reason = none; callback = none };
  guard = stopping;
  clock = 9;
  cancelled_at = some 9;
}

to_signalled : Steps prompt start signalled
unfolding deliver cancel
to_signalled =
    Steps.more {t = record start { guard = received; clock = 9 }}
      (Steps.more {t = record start { guard = received; clock = 7 }}
        (Steps.more {t = record start { guard = waiting; clock = 7; pending = true }}
          (Steps.more {t = record start { guard = waiting; clock = 7 }}
            (Steps.more {t = record start { guard = waiting }}
              (Steps.more {t = start} Steps.stay refl (Step.notifies refl)) refl (Step.ticks 7))
            refl Step.interrupted)
          refl (Step.receives refl refl))
        refl (Step.ticks 2))
      refl (Step.cancels _ tt refl refl)

-- The process ends at 1010; the watch, the registry and the rest end in time.
abbrev ended : System String
ended = record signalled {
  guard = exited;
  clock = 1010;
  watcher = done;
  registry_done = true;
  closer = clean;
  announcer = announced;
}

to_ended : Steps prompt start ended
unfolding has_kill_signaled is_cancelled
to_ended =
    Steps.more {t = record ended { guard = sleeping 9 }}
      (Steps.more {t = record ended { guard = sleeping 9; announcer = announcing }}
        (Steps.more {t = record ended { guard = sleeping 9; announcer = refused }}
          (Steps.more
            {t = record signalled {
              guard = sleeping 9;
              clock = 1010;
              watcher = done;
              registry_done = true;
              closer = clean;
            }}
            (Steps.more
              {t = record signalled {
                guard = sleeping 9;
                watcher = done;
                registry_done = true;
                closer = clean;
              }}
              (Steps.more
                {t = record signalled {
                  guard = sleeping 9;
                  watcher = done;
                  registry_done = true;
                  closer = Closer.awaits_registry;
                }}
                (Steps.more
                  {t = record signalled {
                    guard = sleeping 9;
                    watcher = done;
                    registry_done = true;
                  }}
                  (Steps.more {t = record signalled { guard = sleeping 9; watcher = done }}
                    (Steps.more {t = record signalled { guard = sleeping 9 }}
                      (Steps.more {t = signalled} to_signalled refl (Step.stops refl)) refl
                      (Step.watch_ends refl refl))
                    refl (Step.registry_ends refl))
                  refl (Step.closer_goes_on refl refl))
                refl (Step.closes refl refl))
              refl (Step.ticks 1001))
            refl (Step.dials false refl))
          refl (Step.looks refl))
        refl (Step.announces refl))
      refl (Step.exits 9 refl (omega arith))

exit_lem_example :
    ((ended.guard ≢ exited) ⊎ Cancelled (has_kill_signaled ended) (some 9) goodbye 1010)
    × ((ended.closer ≢ clean)
        ⊎ ((ended.watcher ≡ done)
            × (ended.registry_done ≡ true)
            × (has_kill_signaled ended ≡ true)))
    × ((ended.announcer ≢ announced)
        ⊎ (ended.seen_up ≡ true)
        ⊎ ((ended.registry_done ≡ true) × (has_kill_signaled ended ≡ true)))
exit_lem_example = exit_lem prompt (λ s h. h) (λ s h. h) ended to_ended
