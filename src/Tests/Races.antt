-- ===== src/Tests/Races.antt =====
-- kubeclient/pool.go: calls that are inside at once.
use k8s_explore.Base.{[], ◌∷◌, refl}
use k8s_explore.KubeClient.Races.{
  add, set_current, current_context, contexts, Reach, idle, later, enters, leaves, Pairwise,
  RaceFree, races_lem,
}

-- Two handlers read while the current context is set; `Add` has come and gone.
three_inside : Reach (current_context ∷ set_current ∷ contexts ∷ [])
three_inside =
    later
      (later
        (later (later (later idle (enters add tt)) (leaves [] [] add refl)) (enters contexts tt))
        (enters set_current (refl, tt)))
      (enters current_context (refl, (refl, tt)))

races_lem_example : Pairwise RaceFree (current_context ∷ set_current ∷ contexts ∷ [])
races_lem_example = races_lem (current_context ∷ set_current ∷ contexts ∷ []) three_inside
