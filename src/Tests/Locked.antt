-- ===== src/Tests/Locked.antt =====
-- kubeclient/pool.go: two goroutines that ask one context for its client at once.
use k8s_explore.Base.{List, All, ℕ, zero, suc, none, some, ok, err, ◌≡◌, refl}
use k8s_explore.KubeClient.{Context}
use k8s_explore.KubeClient.Locked.{
  Kind, dynamic, discovery, Shared, fresh, cached, Steps, calls, locks, checks, builds, stores,
  answers, unlocks, stay, first,
}
use k8s_explore.KubeClient.Locked.Invariant.{Kept}
use k8s_explore.KubeClient.Locked.Agreeing.{without_clients, clients_shared}
use k8s_explore.KubeClient.Locked.Alone.{alone}
use k8s_explore.KubeClient.Locked.Finishing.{Ends, call_returns}
use k8s_explore.KubeClient.Locked.Serial.{
  Given, ExactSteps, Passes, ComeFirst, begin, later, replay, Served, IsReturned, Once,
}
use k8s_explore.KubeClient.Locked.Linear.{linearizable}
use k8s_explore.KubeClient.{deref}
use k8s_explore.KubeClient.Valid.{IsValid}
use k8s_explore.KubeClient.Registry.{view}
use k8s_explore.KubeClient.Locked.Pooled.{configured, with_context, interleaving-IsValid}
use k8s_explore.Tests.Pool.{two-Reach}
use k8s_explore.Tests.World.{small_api, cell, two}

-- A context that has no client yet.
abbrev bare : Context small_api
bare = without_clients (cell "a" 5)

-- Both calls are made; the call 0 holds the mutex and has its client made.
abbrev contended : (s : Shared small_api) × Steps (fresh small_api bare) s
contended = (
  _,
  first (calls 0 dynamic refl) (
      first (calls 1 dynamic refl) (
        first (locks 0 dynamic refl refl)
          (first (checks 0 dynamic refl) (first (builds 0 dynamic (ok 5) refl) stay)))),
)

-- The call 0 returns; the call 1 finds its client.
abbrev both : (s : Shared small_api) × Steps (fresh small_api bare) s
both = (
  _,
  first (calls 0 dynamic refl) (
      first (calls 1 dynamic refl) (
        first (locks 0 dynamic refl refl) (
          first (checks 0 dynamic refl) (
            first (builds 0 dynamic (ok 5) refl) (
              first (stores 0 dynamic 5 refl) (
                first (answers 0 dynamic refl) (
                  first (unlocks 0 dynamic (ok (some 5)) refl) (
                    first (locks 1 dynamic refl refl) (
                      first (checks 1 dynamic refl) (
                        first (answers 1 dynamic refl)
                          (first (unlocks 1 dynamic (ok (some 5)) refl) stay))))))))))),
)

clients_shared_example :
    (client : ℕ) × (some 5 ≡ some client)
    × (some 5 ≡ some client)
    × (cached dynamic both.0.context ≡ some client)
    × Kept bare both.0.context
    × (without_clients both.0.context ≡ without_clients bare)
clients_shared_example = clients_shared bare both.0 dynamic 0 1 (some 5) (some 5) both.1 refl refl

call_returns_example :
    (t : Shared small_api) × Steps contended.0 t
    × (t.holder ≡ none)
    × Ends t 1 dynamic (alone dynamic t.context)
call_returns_example = call_returns bare contended.0 1 dynamic contended.1 refl

-- The constructor fails in the call 0, and returns the client 9 in any other call.
abbrev unsteady : Given small_api
unsteady zero k c = err "no config"
unsteady (suc i) dynamic c = ok 9
unsteady (suc i) discovery c = ok 9

-- The call 0 fails while the call 1 waits; the call 1 makes the client.
abbrev failing : (s : Shared small_api) × ExactSteps unsteady (fresh small_api bare) s
failing = (
  _,
  later
      (later
        (later
          (later
            (later
              (later
                (later
                  (later
                    (later
                      (later
                        (later (later begin (calls 0 dynamic refl) tt) (calls 1 dynamic refl) tt)
                        (locks 0 dynamic refl refl) tt)
                      (checks 0 dynamic refl) tt)
                    (builds 0 dynamic (err "no config") refl) refl)
                  (unlocks 0 dynamic _ refl) tt)
                (locks 1 dynamic refl refl) tt)
              (checks 1 dynamic refl) tt)
            (builds 1 dynamic (ok 9) refl) refl)
          (stores 1 dynamic 9 refl) tt)
        (answers 1 dynamic refl) tt)
      (unlocks 1 dynamic (ok (some 9)) refl) tt,
)

linearizable_example :
    (log : List (ℕ × Kind)) × (failing.0.context ≡ replay unsteady bare log)
    × ((i : ℕ) → Served unsteady bare log i (failing.0.call i))
    × All (IsReturned unsteady failing.0) log
    × Once log
    × ((x : Shared small_api) → Passes unsteady failing.1 x → ComeFirst unsteady bare log x)
linearizable_example = linearizable unsteady bare failing.0 failing.1 refl

-- The call 0 makes the discovery client of "b" while the call 1 waits for it.
abbrev discovered : (s : Shared small_api) × ExactSteps configured (fresh small_api (cell "b" 6)) s
discovered = (
  _,
  later
      (later
        (later
          (later
            (later
              (later (later (later begin (calls 0 discovery refl) tt) (calls 1 discovery refl) tt)
                (locks 0 discovery refl refl) tt)
              (checks 0 discovery refl) tt)
            (builds 0 discovery (ok 6) refl) refl)
          (stores 0 discovery 6 refl) tt)
        (answers 0 discovery refl) tt)
      (unlocks 0 discovery (ok (some 6)) refl) tt,
)

interleaving-IsValid_example :
    IsValid (with_context 1 discovered.0.context two)
    × (view (with_context 1 discovered.0.context two) ≡ view two)
unfolding deref
interleaving-IsValid_example =
    interleaving-IsValid two 1 (cell "b" 6) two-Reach refl discovered.0 discovered.1 refl
