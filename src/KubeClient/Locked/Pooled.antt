-- ===== src/KubeClient/Locked/Pooled.antt =====
-- kubeclient/pool.go: calls that interleave on a context of the pool, seen from the pool.
use k8s_explore.Base.{
  ℕ, zero, suc, none, some, List, [], ◌∷◌, ◌≡◌, refl, sym, ◌∙◌, ap, subst, set, set-get_elem?,
  get_elem?-set_self,
}
use k8s_explore.KubeClient.{Api, Context, ClientPool, deref, dynamic_client_at, discovery_client_at}
use k8s_explore.KubeClient.Valid.{IsValid}
use k8s_explore.KubeClient.Reach.{Reach, later, asks_dynamic, asks_discovery, Reach-IsValid}
use k8s_explore.KubeClient.Registry.{view}
use k8s_explore.KubeClient.View.{step-view}
use k8s_explore.KubeClient.Locked.{Kind, dynamic, discovery, Shared, fresh}
use k8s_explore.KubeClient.Locked.Alone.{alone, construct, run_with-construct}
use k8s_explore.KubeClient.Locked.Serial.{Given, ExactSteps, replay}
use k8s_explore.KubeClient.Locked.Linear.{linearizable}

set-set : {A : Type 0} (xs : List A) (i : ℕ) (a b : A) → set (set xs i a) i b ≡ set xs i b
set-set [] i a b = refl
set-set (x ∷ xs) zero a b = refl
set-set (x ∷ xs) (suc i) a b = ap (λ ys. x ∷ ys) (set-set xs i a b)

module _ {api : Api} where
  -- The pool, another context at the pointer.
  abbrev pub with_context : ℕ → Context api → ClientPool api → ClientPool api
  with_context r c p = record p { store = set p.store r c }

  -- A pool to which calls lead, and which shows the same as `p`.
  abbrev SameShown : ClientPool api → ClientPool api → Type 0
  SameShown p p' = Reach p' × (view p' ≡ view p)

  -- What the configuration gives, in every call.
  abbrev pub configured : Given api
  configured i = construct

  -- One more call on the context at the pointer.
  asked :
      (p : ClientPool api) (r : ℕ) (m : Context api) (k : Kind)
      → Reach p
      → deref (some r) p ≡ some m
      → SameShown p (with_context r (alone k m).1 p)
  unfolding dynamic_client_at discovery_client_at
  asked p r m dynamic reached at =
      let step = asks_dynamic r m at in (later reached step, step-view step (Reach-IsValid reached))
  asked p r m discovery reached at =
      let step = asks_discovery r m at in
      (later reached step, step-view step (Reach-IsValid reached))

  module _ (p : ClientPool api) (r : ℕ) (c : Context api) (reached : Reach p)
      (there : deref (some r) p ≡ some c) where
    replay-SameShown :
        (log : List (ℕ × Kind)) → SameShown p (with_context r (replay configured c log) p)
    unfolding deref
    replay-SameShown [] =
        subst (SameShown p)
          (ap (λ store. record p { store = store }) (sym (set-get_elem? p.store r c there)))
          (reached, refl)
    replay-SameShown (e ∷ log) =
        let m = replay configured c log in
        let (before, same) = replay-SameShown log in
        let (after, same') =
          asked (with_context r m p) r m e.1 before (get_elem?-set_self p.store r m there) in
        subst (SameShown p)
          (ap (λ store. record p { store = store }) (set-set p.store r m (alone e.1 m).1)
            ∙ ap (λ a. with_context r a.1 p) (sym (run_with-construct e.1 m)))
          (after, same' ∙ same)

    -- While goroutines call `DynamicClient` and `DiscoveryClient` on a context of a pool that calls of
    -- the pool's methods have made, interleaved in any way and with constructors that return what the
    -- configuration gives: whenever no call holds the mutex of the context, the pool is valid, and
    -- shows what it showed before.
    pub interleaving-IsValid :
        (s : Shared api)
        → ExactSteps configured (fresh api c) s
        → s.holder ≡ none
        → IsValid (with_context r s.context p) × (view (with_context r s.context p) ≡ view p)
    interleaving-IsValid s steps unheld =
        let (log, same, _, _, _, _) = linearizable configured c s steps unheld in
        let (after, shown) =
          subst (λ m. SameShown p (with_context r m p)) (sym same) (replay-SameShown log) in
        (Reach-IsValid after, shown)
