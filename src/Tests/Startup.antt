-- ===== src/Tests/Startup.antt =====
-- main.go's start-up at concrete inputs.
use k8s_explore.Base.{
  ◌≤◌, ◌*◌, [], ◌∷◌, ℕ, suc, zero, String, ◌≡◌, refl, some, none, ok, err, arith, eq_iff,
}
use k8s_explore.Base.Dict.{Dict, lookup, IsMap}
use k8s_explore.KubeClient.{
  Api, Context, ClientPool, new_pool, add, set_current, deref, current_context, contexts,
  dynamic_client,
}
use k8s_explore.Startup.{
  RawContext, Loader, init_loop, finish, init_kube_client_pool, retry, wanted, no_contexts,
}
use k8s_explore.Startup.Rounds.{last_name}
use k8s_explore.Startup.Choose.{choose, Agrees}
use k8s_explore.Startup.Choice.{init_kube_client_pool-Agrees}
use k8s_explore.Startup.Visits.{reordered}
use k8s_explore.Startup.Order.{Alike, init_kube_client_pool_order}
use k8s_explore.Startup.Attempts.{attempts, last_result, attempts_le}
use k8s_explore.Startup.Run.{max_wait, default_flags, Outcome, serving, run, Caused, run_total}
use k8s_explore.Startup.Retry.{retry_forgets}
use k8s_explore.Tests.World.{small_api, raw, cell, two, three_entries, up, down, all_up}

startup : Unit {0}
unfolding init_kube_client_pool init_loop finish add set_current contexts new_pool retry
startup = tt

pub entries-IsMap : IsMap three_entries.contexts
entries-IsMap = (refl, (refl, (refl, tt)))

-- The kubeconfig's current context is made current; "c" is left out, and the flag is left at "c".
pub init-up : init_kube_client_pool up "" ≡ (ok two, "c")
unfolding startup
init-up = refl

-- A flag that names no context of the kubeconfig.
init_unknown : (init_kube_client_pool up "z").0 ≡ err (k8s_explore.KubeClient.unknown_context)
unfolding startup
init_unknown = refl

-- The context that the flag names does not connect: the first takes its place.
init_fallback : (init_kube_client_pool up "c").0 ≡ ok (record two { current = some 0 })
unfolding startup
init_fallback = refl

init-down : (init_kube_client_pool down "").0 ≡ err no_contexts
unfolding startup
init-down = refl

init_kube_client_pool-Agrees_example :
    Agrees up three_entries.contexts
      (choose up (wanted "" three_entries) three_entries.contexts)
      (init_kube_client_pool up "").0
    × ((init_kube_client_pool up "").1 ≡ last_name three_entries.contexts "")
init_kube_client_pool-Agrees_example =
    init_kube_client_pool-Agrees up "" three_entries refl entries-IsMap

-- The loader is down at the first attempt, and up from then on.
abbrev coming_up : ℕ → Loader small_api
coming_up zero = down
coming_up (suc _) = all_up

abbrev seconds : ℕ → ℕ
seconds i = i

retry-down : retry (λ _. down) seconds 3 4 0 "" none ≡ some (none, some no_contexts)
unfolding startup
retry-down = refl

-- The flag named "a", and the second attempt made "c" the current context.
retry_forgets_example :
    (p : ClientPool small_api) × (retry coming_up seconds 300 (suc (suc 3)) 0 "a" none
      ≡ some (some p, none))
    × (deref (current_context p) p ≡ some (cell "c" 7))
retry_forgets_example =
    retry_forgets coming_up seconds 300 "a" "c" three_entries three_entries raw (cell "c" 7) 3 refl
      entries-IsMap refl refl (ground (arith, eq_iff "c" "")) refl entries-IsMap refl refl
      (omega arith) (omega arith)

-- The same entries, visited from "c" to "a".
abbrev backwards : Dict RawContext
backwards = ("c", raw) ∷ ("b", raw) ∷ ("a", raw) ∷ []

abbrev up_backwards : Loader small_api
up_backwards = reordered up (record three_entries { contexts = backwards })

one_map : (name : String) → lookup name three_entries.contexts ≡ lookup name backwards
one_map name = ground arith

backwards-IsMap : IsMap backwards
backwards-IsMap = (refl, (refl, (refl, tt)))

init_kube_client_pool_order_example :
    Alike up
      (wanted "c" three_entries)
      three_entries.contexts
      backwards
      up_backwards
      (init_kube_client_pool up "c").0
      (init_kube_client_pool up_backwards "c").0
init_kube_client_pool_order_example =
    init_kube_client_pool_order up "c" three_entries backwards refl
      (record { keys = entries-IsMap; other_keys = backwards-IsMap; same = one_map })

-- The context that is wanted does not connect: each order makes another one the current one.
orders_differ :
    ((init_kube_client_pool up "c").0 ≡ ok (record two { current = some 0 }))
    × (choose up "c" three_entries.contexts ≡ ok (cell "a" 5))
    × (choose up_backwards "c" backwards ≡ ok (cell "b" 6))
unfolding startup
orders_differ = (refl, refl, refl)

attempts_le_example :
    (attempts (λ _. down) seconds 3 4 0 "" ≤ 3)
    × (retry (λ _. down) seconds 3 4 0 "" none
        ≡ some
            (last_result (λ _. down) seconds 3 (attempts (λ _. down) seconds 3 4 0 "") 0 "" none))
attempts_le_example =
    attempts_le (λ _. down) seconds 3 1 (λ i. omega arith) 3 4 0 "" none (omega arith) (omega arith)

-- All three attempts are made.
attempts-down : attempts (λ _. down) seconds 3 4 0 "" ≡ 3
unfolding startup attempts
attempts-down = refl

abbrev milliseconds : ℕ → ℕ
milliseconds i = i * 1000

run_total_example :
    (o : Outcome small_api) × (run (λ _. up) milliseconds 301 (default_flags "a") ≡ some o)
    × Caused (λ _. up) milliseconds (default_flags "a") o
    × (attempts (λ _. up) milliseconds max_wait 301 0 "a" ≤ 300)
run_total_example =
    run_total (λ _. up) milliseconds (λ i. omega arith) (default_flags "a") (omega arith)

-- The context of the flag is the current one, and the address is the default.
run-up :
    run (λ _. up) milliseconds 301 (default_flags "a")
    ≡ some (serving (record two { current = some 0 }) "127.0.0.1:5173")
unfolding startup run
run-up = refl
