-- ===== src/Startup/Wanted.antt =====
-- main.go: what the loop of `initKubeClientPool` does to `curKubeCtx`.
use k8s_explore.Base.{eq_iff, none, some, [], ◌∷◌, ◌≡◌, refl, inl, inr, arith, Option-cases}
use k8s_explore.Base.Dict.{Dict, lookup, IsMap, String-cases, lookup-cons-none}
use k8s_explore.KubeClient.{Api, Context}
use k8s_explore.Startup.{RawContext, Loader, Progress, forget, init_loop}
use k8s_explore.Startup.Rounds.{connect, init_loop-some, init_loop-none, init_loop_inv}

module _ {api : Api} (loader : Loader api) where
  -- What becomes of the wanted name: it is given up if its entry does not connect.
  pub init_loop-cur_absent :
      (es : Dict RawContext) (s : Progress api)
      → lookup s.cur es ≡ none
      → (init_loop loader es s).cur ≡ s.cur
  init_loop-cur_absent es s missing =
      (init_loop_inv loader (λ rest t. (lookup s.cur rest ≡ none) × (t.cur ≡ s.cur))
        (λ e rest t c done (m, q). ((lookup-cons-none s.cur e rest m).1, q))
        (λ e rest t failed (m, q).
          let (ne, m') = lookup-cons-none s.cur e rest m in (m', ground (arith, eq_iff e.0 s.cur)))
        es s (missing, refl)).1

  pub init_loop-cur_kept :
      (k : RawContext) (c : Context api) (es : Dict RawContext) (s : Progress api)
      → lookup s.cur es ≡ some k
      → connect loader s.cur k ≡ some c
      → IsMap es
      → (init_loop loader es s).cur ≡ s.cur
  init_loop-cur_kept k c [] s found done m = cc
  init_loop-cur_kept k c (e ∷ es) s found done m = elim (String-cases s.cur e.0) [
    | inl same ↦
        let here : e.1 ≡ k = ground (arith, eq_iff s.cur e.0) in
        let done' : connect loader e.0 e.1 ≡ some c = rw (← same, here) done in
        rw (init_loop-some loader e es s c done') (init_loop-cur_absent es _ (rw same m.0))
    | inr other ↦
        let later : lookup s.cur es ≡ some k = ground (arith, eq_iff s.cur e.0) in
        let kept : forget e.0 s.cur ≡ s.cur = ground (arith, eq_iff e.0 s.cur) in
        elim (Option-cases (connect loader e.0 e.1)) [
          | inl failed ↦
              rw (init_loop-none loader e es s failed, kept)
                (init_loop-cur_kept k c es _ later done m.1)
          | inr (b, made) ↦
              rw (init_loop-some loader e es s b made) (init_loop-cur_kept k c es _ later done m.1)
        ]
  ]

  pub init_loop-cur_empty :
      (es : Dict RawContext) (s : Progress api) → s.cur ≡ "" → (init_loop loader es s).cur ≡ ""
  init_loop-cur_empty =
      init_loop_inv loader (λ _ t. t.cur ≡ "") (λ e es t c h p. p) (λ e es t h p. ground arith)

  pub init_loop-cur_failed :
      (k : RawContext) (es : Dict RawContext) (s : Progress api)
      → lookup s.cur es ≡ some k
      → connect loader s.cur k ≡ none
      → (init_loop loader es s).cur ≡ ""
  init_loop-cur_failed k [] s found failed = cc
  init_loop-cur_failed k (e ∷ es) s found failed = elim (String-cases s.cur e.0) [
    | inl same ↦
        let here : e.1 ≡ k = ground (arith, eq_iff s.cur e.0) in
        let failed' : connect loader e.0 e.1 ≡ none = rw (← same, here) failed in
        rw (init_loop-none loader e es s failed')
          (init_loop-cur_empty es _ (ground (arith, eq_iff e.0 s.cur)))
    | inr other ↦
        let later : lookup s.cur es ≡ some k = ground (arith, eq_iff s.cur e.0) in
        let kept : forget e.0 s.cur ≡ s.cur = ground (arith, eq_iff e.0 s.cur) in
        elim (Option-cases (connect loader e.0 e.1)) [
          | inl lost ↦
              rw (init_loop-none loader e es s lost, kept)
                (init_loop-cur_failed k es _ later failed)
          | inr (b, made) ↦
              rw (init_loop-some loader e es s b made) (init_loop-cur_failed k es _ later failed)
        ]
  ]
