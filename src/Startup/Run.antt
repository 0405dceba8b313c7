-- ===== src/Startup/Run.antt =====
-- main.go: `run`, up to `router.Run`, which blocks while the server is up. Times are milliseconds.
use k8s_explore.Base.{
  ℕ, ◌+◌, ◌≤◌, ◌<◌, String, Option, none, some, ◌≡◌, refl, arith, Error, ok, err,
}
use Prim.Native.String.{◌++◌ as text_append}
use k8s_explore.KubeClient.{Api, ClientPool}
use k8s_explore.Startup.{Loader, init_kube_client_pool, retry}
use k8s_explore.Startup.Attempts.{attempts, attempts_le}
use k8s_explore.Startup.Retry.{retry_total, retry-Ended, attempted, too_late, gave_up}

-- `flagpole`: the flag `--context` and those of the server, with their defaults.
pub record Flags : Type 0 where
  pub context : String
  pub host : String
  pub port : String

abbrev pub default_flags : String → Flags
default_flags context = record { context = context; host = "127.0.0.1"; port = "5173" }

-- `300*time.Second`
abbrev pub max_wait : ℕ
max_wait = 300000

-- `time.Sleep(1 * time.Second)`
abbrev pub pause : ℕ
pause = 1000

module _ (api : Api) where
  -- How `run` goes on: the process ends with an error in its log, a nil pool is dereferenced, or
  -- the server is started with a pool, at an address.
  pub data Outcome : Type 0 where
    fatal : Error api.ApiError → Outcome
    panicked : Outcome
    serving : ClientPool api → String → Outcome

module _ {api : Api} (loaders : ℕ → Loader api) (since : ℕ → ℕ) where
  -- `run`, on the fuel of `retry`.
  unfoldable pub run : ℕ → Flags → Option (Outcome api)
  run fuel flags = elim (retry loaders since max_wait fuel 0 flags.context none) [
    | none ↦ none
    | some (pool, failed) ↦ elim failed [
      | some e ↦ some (fatal e)
      | none ↦ elim pool [
        | none ↦ some panicked
        | some p ↦ some (serving p (text_append flags.host (text_append ":" flags.port)))
      ]
    ]
  ]

  -- The attempt `j` gave the outcome: a pool in time, or an error after which the time was over.
  pub data Caused (flags : Flags) (o : Outcome api) : Type 0 where
    served :
        (j : ℕ) (flag : String) (p : ClientPool api)
        → since j < max_wait
        → (init_kube_client_pool (loaders j) flag).0 ≡ ok p
        → o ≡ serving p (text_append flags.host (text_append ":" flags.port))
        → Caused flags o
    failed :
        (j : ℕ) (flag : String) (e : Error api.ApiError)
        → (init_kube_client_pool (loaders j) flag).0 ≡ err e
        → max_wait ≤ since (j + 1)
        → o ≡ fatal e
        → Caused flags o

  -- Every round sleeps, so the clock gains a second on each, and it starts below the 300 seconds. Then
  -- `run` ends its start-up, whatever the kubeconfig and the clusters answer: after at most 300 attempts
  -- it serves, at the address of its flags, the pool of an attempt that succeeded in time, or it ends
  -- with the error of the attempt after which the 300 seconds were over; it never dereferences a nil
  -- pool.
  pub run_total :
      (grows : (i : ℕ) → since i + pause ≤ since (i + 1)) (flags : Flags)
      → since 0 < max_wait
      → (o : Outcome api) × (run 301 flags ≡ some o)
        × Caused flags o
        × (attempts loaders since max_wait 301 0 flags.context ≤ 300)
  unfolding run
  run_total grows flags early =
      let (r, returns) =
        retry_total loaders since max_wait pause grows 300 0 flags.context none (omega arith) in
      let (few, _) =
        attempts_le loaders since max_wait pause grows 300 301 0 flags.context none (omega arith)
          (omega arith) in
      elim (retry-Ended loaders since max_wait 301 0 flags.context none r returns) [
        | attempted j flag p in_time done is ↦ (
          serving p (text_append flags.host (text_append ":" flags.port)),
          ground arith,
          served j flag p in_time done refl,
          few,
        )
        | too_late late is ↦ absurd (omega arith)
        | gave_up j flag e broke late is ↦
            (fatal e, ground arith, failed j flag e broke late refl, few)
      ]
