-- ===== src/Startup/Members.antt =====
-- main.go: what the loop of `initKubeClientPool` does to the pool and to the context flag.
use k8s_explore.Base.{
  ℕ, String, eq_iff, none, some, [], ◌∷◌, ◌++◌, ◌≡◌, refl, sym, subst, ◌∙◌, ◌≢◌, inl, inr, arith,
  Option-cases, length, get_elem?, get_elem?-concat_end, get_elem?-concat_old, append-nil,
  append_assoc,
}
use k8s_explore.Base.Dict.{
  Dict, lookup, IsMap, String-cases, lookup-cons-none, lookup-insert_self, lookup-insert_ne,
}
use k8s_explore.KubeClient.{Api, Context, ClientPool, publish}
use k8s_explore.KubeClient.Valid.{IsValid, publish-IsValid}
use k8s_explore.Startup.{RawContext, Loader, Progress, init_loop}
use k8s_explore.Startup.Rounds.{
  connect, init_loop-some, init_loop-none, init_loop_inv, joined, last_name, connect-name,
}

module _ {api : Api} (loader : Loader api) where
  pub init_loop-IsValid :
      (es : Dict RawContext) (s : Progress api)
      → IsValid s.pool
      → IsValid (init_loop loader es s).pool
  init_loop-IsValid =
      init_loop_inv loader (λ _ s. IsValid s.pool)
        (λ e es s c h v. publish-IsValid c (connect-name loader e.0 e.1 c h).1 s.pool v)
        (λ e es s h v. v)

  pub init_loop-flag :
      (es : Dict RawContext) (s : Progress api) → (init_loop loader es s).flag ≡ last_name es s.flag
  init_loop-flag es s =
      init_loop_inv loader (λ rest t. last_name rest t.flag ≡ last_name es s.flag)
        (λ e rest t c h p. p) (λ e rest t h p. p) es s refl

  -- The store grows by the contexts of the entries that connect.
  pub init_loop-store :
      (es : Dict RawContext) (s : Progress api)
      → (init_loop loader es s).pool.store ≡ s.pool.store ++ joined loader es
  init_loop-store es s =
      sym (append-nil _)
      ∙ init_loop_inv loader
          (λ rest t. t.pool.store ++ joined loader rest ≡ s.pool.store ++ joined loader es)
          (λ e rest t c h p.
            append_assoc t.pool.store (c ∷ []) (joined loader rest) ∙ (rw (h, joined) at p))
          (λ e rest t h p. rw (h, joined) at p) es s refl

  -- The current context stays, and where there was none it is the first that the loop adds.
  pub init_loop-current_kept :
      (r : ℕ) (es : Dict RawContext) (s : Progress api)
      → s.pool.current ≡ some r
      → (init_loop loader es s).pool.current ≡ some r
  init_loop-current_kept r =
      init_loop_inv loader (λ _ t. t.pool.current ≡ some r) (λ e es t c h p. ground arith)
        (λ e es t h p. p)

  pub init_loop-current_new :
      (es : Dict RawContext) (s : Progress api)
      → s.pool.current ≡ none
      → joined loader es ≢ []
      → (init_loop loader es s).pool.current ≡ some (length s.pool.store)
  init_loop-current_new [] s h some_joined = absurd (some_joined refl)
  init_loop-current_new (e ∷ es) s h some_joined = elim (Option-cases (connect loader e.0 e.1)) [
    | inl failed ↦
        rw (init_loop-none loader e es s failed)
          (init_loop-current_new es _ h (λ p. some_joined (rw (failed, joined) p)))
    | inr (c, done) ↦
        rw (init_loop-some loader e es s c done)
          (init_loop-current_kept (length s.pool.store) es _ (ground arith))
  ]

  -- Where no entry connects the pool is the old one.
  pub init_loop-none_joined :
      (es : Dict RawContext) (s : Progress api)
      → joined loader es ≡ []
      → (init_loop loader es s).pool ≡ s.pool
  init_loop-none_joined [] s h = unfold init_loop in refl
  init_loop-none_joined (e ∷ es) s h = elim (Option-cases (connect loader e.0 e.1)) [
    | inl failed ↦
        rw (init_loop-none loader e es s failed)
          (init_loop-none_joined es _ (rw (failed, joined) at h))
    | inr (c, done) ↦ let bad = rw (done, joined) at h in cc
  ]

  -- A name that no entry has, or only one that does not connect, is not added.
  abbrev Absent : String → Dict RawContext → Type 0
  Absent name es = (k : RawContext) → lookup name es ≡ some k → connect loader name k ≡ none

  Absent-tail :
      (name : String) (e : String × RawContext) (es : Dict RawContext)
      → IsMap (e ∷ es)
      → Absent name (e ∷ es)
      → Absent name es
  Absent-tail name e es m a k h = a k (ground (arith, eq_iff name e.0, m.0))

  Absent-ne :
      (name : String) (e : String × RawContext) (es : Dict RawContext) (c : Context api)
      → Absent name (e ∷ es)
      → connect loader e.0 e.1 ≡ some c
      → c.name ≢ name
  Absent-ne name e es c a h same =
      let here : name ≡ e.0 = sym same ∙ (connect-name loader e.0 e.1 c h).0 in
      let bad = a e.1 (ground (arith, eq_iff name e.0)) in cc (h, bad, here)

  pub init_loop-missing :
      (name : String) (es : Dict RawContext) (s : Progress api)
      → IsMap es
      → Absent name es
      → lookup name (init_loop loader es s).pool.contexts ≡ lookup name s.pool.contexts
  init_loop-missing name es s m a =
      (init_loop_inv loader
        (λ rest t.
          IsMap rest
          × Absent name rest
          × (lookup name t.pool.contexts ≡ lookup name s.pool.contexts))
        (λ e rest t c h (m', a', p). (
          m'.1,
          Absent-tail name e rest m' a',
          lookup-insert_ne c.name name (length t.pool.store) t.pool.contexts
                (λ same. Absent-ne name e rest c a' h (sym same))
              ∙ p,
        ))
        (λ e rest t h (m', a', p). (m'.1, Absent-tail name e rest m' a', p)) es s (m, a, refl)).2

  -- An entry that connects is found in the pool, behind its name.
  abbrev pub InPool : String → Context api → ClientPool api → Type 0
  InPool name c p = (r : ℕ) × (lookup name p.contexts ≡ some r) × (get_elem? p.store r ≡ some c)

  publish-InPool_self : (c : Context api) (p : ClientPool api) → InPool c.name c (publish c p)
  publish-InPool_self c p = (
    length p.store,
    lookup-insert_self c.name (length p.store) p.contexts,
    get_elem?-concat_end p.store c,
  )

  publish-InPool_ne :
      (name : String) (b c : Context api) (p : ClientPool api)
      → name ≢ c.name
      → InPool name b p
      → InPool name b (publish c p)
  publish-InPool_ne name b c p ne (r, found, at) = (
    r,
    lookup-insert_ne c.name name (length p.store) p.contexts ne ∙ found,
    get_elem?-concat_old p.store c r at,
  )

  pub init_loop-InPool_kept :
      (name : String) (b : Context api) (es : Dict RawContext) (s : Progress api)
      → lookup name es ≡ none
      → InPool name b s.pool
      → InPool name b (init_loop loader es s).pool
  init_loop-InPool_kept name b es s missing h =
      (init_loop_inv loader (λ rest t. (lookup name rest ≡ none) × InPool name b t.pool)
        (λ e rest t c done (m, q).
          let (ne, m') = lookup-cons-none name e rest m in
          let same = (connect-name loader e.0 e.1 c done).0 in
          (m', publish-InPool_ne name b c t.pool (λ x. ne (x ∙ same)) q))
        (λ e rest t failed (m, q). ((lookup-cons-none name e rest m).1, q)) es s (missing, h)).1

  pub init_loop-InPool :
      (name : String) (k : RawContext) (c : Context api) (es : Dict RawContext) (s : Progress api)
      → IsMap es
      → lookup name es ≡ some k
      → connect loader name k ≡ some c
      → InPool name c (init_loop loader es s).pool
  init_loop-InPool name k c [] s m found done = cc
  init_loop-InPool name k c (e ∷ es) s m found done = elim (String-cases name e.0) [
    | inl same ↦
        let here : e.1 ≡ k = ground (arith, eq_iff name e.0) in
        let named : c.name ≡ name = (connect-name loader name k c done).0 in
        let done' : connect loader e.0 e.1 ≡ some c = rw (← same, here) done in
        rw (init_loop-some loader e es s c done') (
          init_loop-InPool_kept name c es _ (rw same m.0)
            (subst (λ x. InPool x c (publish c s.pool)) named (publish-InPool_self c s.pool)))
    | inr other ↦
        let later : lookup name es ≡ some k = ground (arith, eq_iff name e.0) in
        elim (Option-cases (connect loader e.0 e.1)) [
          | inl failed ↦
              rw (init_loop-none loader e es s failed)
                (init_loop-InPool name k c es _ m.1 later done)
          | inr (b, made) ↦
              rw (init_loop-some loader e es s b made)
                (init_loop-InPool name k c es _ m.1 later done)
        ]
  ]
