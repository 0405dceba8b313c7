-- ===== src/Tests/Pool.antt =====
-- kubeclient/pool.go at concrete inputs.
use k8s_explore.Base.{◌≡◌, refl, some, none}
use k8s_explore.KubeClient.{ClientPool, new_pool, add, set_current, deref, dynamic_client_at}
use k8s_explore.KubeClient.Valid.{IsValid, new_pool-IsValid, add-IsValid, set_current-IsValid}
use k8s_explore.KubeClient.Reach.{
  Reach, start, later, adds, sets_current, asks_dynamic, Reach-IsValid,
}
use k8s_explore.KubeClient.Registry.{view, info, registry_of}
use k8s_explore.KubeClient.View.{pool_refines_registry}
use k8s_explore.Tests.World.{small_api, cell, two}

abbrev one : ClientPool small_api
one = (add "a" "ann" "lab" "dev" 5 (new_pool small_api)).1

two-added : (add "b" "ann" "lab" "dev" 6 one).1 ≡ record two { current = some 0 }
unfolding add new_pool
two-added = refl

two-set : set_current "b" (record two { current = some 0 }) ≡ (none, two)
unfolding set_current
two-set = refl

-- A failed `Add` leaves the pool alone.
add_fails : (add "c" "ann" "lab" "dev" 9 two).1 ≡ two
unfolding add
add_fails = refl

pub two-IsValid : IsValid two
unfolding new_pool add set_current
two-IsValid =
    set_current-IsValid "b" (record two { current = some 0 })
      (add-IsValid "b" "ann" "lab" "dev" 6 one
        (add-IsValid "a" "ann" "lab" "dev" 5 (new_pool small_api) new_pool-IsValid))

-- "a" and "b" are added, "b" is made current, the client of "b" is asked for.
pub two-Reach : Reach two
unfolding new_pool add set_current dynamic_client_at deref
two-Reach =
    later
      (later (later (later start (adds "a" "ann" "lab" "dev" 5)) (adds "b" "ann" "lab" "dev" 6))
        (sets_current "b"))
      (asks_dynamic 1 (cell "b" 6) refl)

Reach-IsValid_example : IsValid two
Reach-IsValid_example = Reach-IsValid two-Reach

pool_refines_registry_example : view two ≡ registry_of two-Reach
pool_refines_registry_example = pool_refines_registry two-Reach

-- "a" is added again: the name shows the new context, and the current one is still the old.
abbrev readded : ClientPool small_api
readded = (add "a" "ann" "lab" "dev" 4 one).1

view-readded :
    ((view readded).find "a" ≡ some (info (cell "a" 4)))
    × ((view readded).current ≡ some (info (cell "a" 5)))
unfolding add new_pool
view-readded = (refl, refl)
