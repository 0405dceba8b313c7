-- ===== src/Startup/Choice.antt =====
-- main.go: which context `initKubeClientPool` makes the current one.
use k8s_explore.Base.{
  ℕ, String, eq_iff, none, some, List, [], ◌∷◌, ◌≡◌, refl, sym, ◌∙◌, ◌≢◌, inl, inr, arith, ok, err,
  Option-cases, List-cases, map, false,
}
use k8s_explore.Base.Dict.{Dict, lookup, IsMap, String-cases}
use k8s_explore.KubeClient.{
  Api, Context, ClientPool, new_pool, set_current, unknown_context, deref, current_context,
  contexts,
}
use k8s_explore.KubeClient.Valid.{IsValid, new_pool-IsValid, set_current-IsValid}
use k8s_explore.Startup.{
  RawContext, RawConfig, Loader, Progress, is_nil, init_loop, finish, no_contexts, wanted,
  init_kube_client_pool,
}
use k8s_explore.Startup.Rounds.{connect, joined, last_name}
use k8s_explore.Startup.Members.{
  init_loop-IsValid, init_loop-flag, init_loop-store, init_loop-current_new, init_loop-none_joined,
  init_loop-missing, init_loop-InPool,
}
use k8s_explore.Startup.Wanted.{
  init_loop-cur_absent, init_loop-cur_kept, init_loop-cur_failed, init_loop-cur_empty,
}
use k8s_explore.Startup.Choose.{
  choose, Agrees, Started, choose-empty, choose-blank, choose-unknown, choose-failed, choose-found,
  choose-wanted,
}

module _ {api : Api} (loader : Loader api) where
  finish-empty : (s : Progress api) → s.pool ≡ new_pool api → finish loader s ≡ err no_contexts
  unfolding finish contexts new_pool
  finish-empty s h = rw h refl

  map-ne-nil :
      (name : String) (j : ℕ) (m : Dict ℕ)
      → lookup name m ≡ some j
      → is_nil (map (λ e. e.1) m) ≡ false
  map-ne-nil name j [] h = cc
  map-ne-nil name j (e ∷ m) h = refl

  IsValid-contexts :
      (p : ClientPool api) (r : ℕ) → IsValid p → p.current ≡ some r → is_nil (contexts p) ≡ false
  unfolding contexts
  IsValid-contexts p r v h =
      let (name, j, stored, found) = v.listed r h in map-ne-nil name j p.contexts found

  module _ (s : Progress api) (v : IsValid s.pool) (current : s.pool.current ≡ some 0) where
    finish-blank : s.cur ≡ "" → finish loader s ≡ ok s.pool
    unfolding finish
    finish-blank h = ground (arith, IsValid-contexts s.pool 0 v current, eq_iff s.cur "")

    finish-unknown :
        s.cur ≢ "" → lookup s.cur s.pool.contexts ≡ none → finish loader s ≡ err unknown_context
    unfolding finish set_current
    finish-unknown h missing = ground (arith, IsValid-contexts s.pool 0 v current, eq_iff s.cur "")

    finish-found :
        (r : ℕ)
        → s.cur ≢ ""
        → lookup s.cur s.pool.contexts ≡ some r
        → finish loader s ≡ ok (record s.pool { current = some r })
    unfolding finish set_current
    finish-found r h found = ground (arith, IsValid-contexts s.pool 0 v current, eq_iff s.cur "")

  module _ (w flag : String) (es : Dict RawContext) (m : IsMap es) where
    abbrev before : Progress api
    before = record { cur = w; flag = flag; pool = new_pool api }

    abbrev after : Progress api
    after = init_loop loader es before

    after-IsValid : IsValid after.pool
    after-IsValid = init_loop-IsValid loader es before new_pool-IsValid

    after-store : after.pool.store ≡ joined loader es
    unfolding new_pool
    after-store = init_loop-store loader es before

    module _ (first : Context api) (rest : List (Context api))
        (some_joined : joined loader es ≡ first ∷ rest) where
      after-current : after.pool.current ≡ some 0
      unfolding new_pool
      after-current = init_loop-current_new loader es before refl (λ h. cc (sym some_joined ∙ h))

      -- Nothing is wanted any more: the first context stays the current one.
      blank-Agrees : after.cur ≡ "" → Agrees loader es (ok first) (finish loader after)
      unfolding deref current_context
      blank-Agrees h = (
        after.pool,
        finish-blank after after-IsValid after-current h,
        record {
          valid = after-IsValid;
          members = after-store;
          current = ground (arith, after-current, after-store, some_joined);
        },
      )

      unknown-Agrees :
          w ≢ "" → lookup w es ≡ none → Agrees loader es (err unknown_context) (finish loader after)
      unfolding new_pool
      unknown-Agrees ne missing =
          let kept = init_loop-cur_absent loader es before missing in
          finish-unknown after after-IsValid after-current (λ h. ne (sym kept ∙ h))
            (rw kept (init_loop-missing loader w es before m (λ k h. cc)))

      found-Agrees :
          (k : RawContext) (c : Context api)
          → w ≢ ""
          → lookup w es ≡ some k
          → connect loader w k ≡ some c
          → Agrees loader es (ok c) (finish loader after)
      unfolding deref current_context set_current
      found-Agrees k c ne found done =
          let kept = init_loop-cur_kept loader k c es before found done m in
          let (r, listed, stored) = init_loop-InPool loader w k c es before m found done in
          let set_valid = set_current-IsValid w after.pool after-IsValid in
          (
            record after.pool { current = some r },
            finish-found after after-IsValid after-current r (λ h. ne (sym kept ∙ h))
                (rw kept listed),
            record {
              valid = rw (listed, set_current) at set_valid;
              members = after-store;
              current = stored;
            },
          )

    after-Agrees : Agrees loader es (choose loader w es) (finish loader after)
    after-Agrees = elim (List-cases (joined loader es)) [
      | inl empty ↦
          rw (choose-empty loader w es empty)
            (finish-empty after (init_loop-none_joined loader es before empty))
      | inr (first, rest, some_joined) ↦ elim (String-cases w "") [
        | inl blank ↦
            rw (choose-blank loader w es first rest some_joined blank)
              (blank-Agrees first rest some_joined (init_loop-cur_empty loader es before blank))
        | inr ne ↦ elim (Option-cases (lookup w es)) [
          | inl missing ↦
              rw (choose-unknown loader w es first rest some_joined ne missing)
                (unknown-Agrees first rest some_joined ne missing)
          | inr (k, found) ↦ elim (Option-cases (connect loader w k)) [
            | inl failed ↦ rw (choose-failed loader w es first rest some_joined k ne found failed) (
                blank-Agrees first rest some_joined
                  (init_loop-cur_failed loader k es before found failed))
            | inr (c, done) ↦
                rw (choose-found loader w es first rest some_joined k c ne found done)
                  (found-Agrees first rest some_joined k c ne found done)
          ]
        ]
      ]
    ]

  -- Where the kubeconfig loads, `initKubeClientPool` ends as `choose` says for the context that the
  -- flag names, or else the kubeconfig: with that error, or with a valid pool that stores the contexts
  -- that connect and has the chosen one as the current one. It leaves the flag at the name that it
  -- visited last.
  pub init_kube_client_pool-Agrees :
      (flag : String) (raw : RawConfig)
      → loader.raw_config flag ≡ ok raw
      → IsMap raw.contexts
      → Agrees loader raw.contexts
          (choose loader (wanted flag raw) raw.contexts)
          (init_kube_client_pool loader flag).0
        × ((init_kube_client_pool loader flag).1 ≡ last_name raw.contexts flag)
  unfolding init_kube_client_pool
  init_kube_client_pool-Agrees flag raw loaded m =
      rw (loaded, init_kube_client_pool)
        (after-Agrees (wanted flag raw) flag raw.contexts m, init_loop-flag loader raw.contexts _)

  -- The flag's context is made the current one if it connects.
  pub init_kube_client_pool-wanted :
      (flag : String) (raw : RawConfig) (k : RawContext) (c : Context api)
      → loader.raw_config flag ≡ ok raw
      → IsMap raw.contexts
      → flag ≢ ""
      → lookup flag raw.contexts ≡ some k
      → connect loader flag k ≡ some c
      → (p : ClientPool api) × ((init_kube_client_pool loader flag).0 ≡ ok p)
        × Started loader raw.contexts c p
  init_kube_client_pool-wanted flag raw k c loaded m ne found done =
      let here : wanted flag raw ≡ flag = ground (arith, eq_iff flag "") in
      let agrees = (init_kube_client_pool-Agrees flag raw loaded m).0 in
      rw (here, choose-wanted loader flag raw.contexts k c ne found done) at agrees

  -- Where no context connects there is no pool.
  pub init_kube_client_pool-empty :
      (flag : String) (raw : RawConfig)
      → loader.raw_config flag ≡ ok raw
      → IsMap raw.contexts
      → joined loader raw.contexts ≡ []
      → (init_kube_client_pool loader flag).0 ≡ err no_contexts
  init_kube_client_pool-empty flag raw loaded m empty =
      let agrees = (init_kube_client_pool-Agrees flag raw loaded m).0 in
      rw (choose-empty loader (wanted flag raw) raw.contexts empty) at agrees
