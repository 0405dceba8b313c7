-- ===== src/Rest/Contexts/Listing.antt =====
-- api/rest/kube/contexts/contexts.go: for a valid pool the list has an entry for each name of the
-- pool, and marks one as current.
use k8s_explore.Base.{
  ℕ, ◌+◌, String, eq_iff, none, some, List, [], ◌∷◌, ◌++◌, map, ◌≡◌, ◌∙◌, refl, arith, get_elem?,
  if◌then◌else◌, append_assoc, append-nil, Option-cases, inl, inr,
}
use k8s_explore.Base.Dict.{Dict, lookup, IsMap}
use k8s_explore.KubeClient.{Api, Context, ClientPool, deref, current_context, contexts}
use k8s_explore.KubeClient.Valid.{IsValid, IsStored}
use k8s_explore.Rest.Gin.{returned, World}
use k8s_explore.Rest.Contexts.{ContextInfo, describe, collect, handle_list}

abbrev pub current_count : List ContextInfo → ℕ
current_count [] = 0
current_count (i ∷ is) = (if i.current then 1 else 0) + current_count is

found-one :
    (name : String) (j : ℕ) (m : Dict ℕ)
    → lookup name m ≡ some j
    → ◌≡◌ {A = ℕ} (elim (lookup name m) [ none ↦ 0 | some _ ↦ 1 ]) (elim m [ [] ↦ 0 | _ ∷ _ ↦ 1 ])
found-one name j [] h = cc
found-one name j (e ∷ m) h = ground arith

module _ {api : Api} where
  -- The list describes the entries of the map one by one, each from the context that it leads to.
  abbrev pub Describes : List (Context api) → String → Dict ℕ → List ContextInfo → Type 0
  Describes store cur [] [] = Unit
  Describes store cur (e ∷ m) (i ∷ is) =
      (c : Context api) × (get_elem? store e.1 ≡ some c)
      × (c.name ≡ e.0)
      × (i ≡ describe c cur)
      × Describes store cur m is
  Describes store cur _ _ = ⊥

  -- The name of the current context, "" if there is none.
  abbrev pub current_name : ClientPool api → String
  current_name p = elim (deref p.current p) [ none ↦ "" | some c ↦ c.name ]

  abbrev Leads : List (Context api) → Dict ℕ → Type 0
  Leads store m = (name : String) (r : ℕ) → lookup name m ≡ some r → IsStored store r name

  Leads-tail :
      (store : List (Context api)) (e : String × ℕ) (m : Dict ℕ)
      → IsMap (e ∷ m)
      → Leads store (e ∷ m)
      → Leads store m
  Leads-tail store e m k h name r found = h name r (ground (arith, eq_iff name e.0, k.0))

  module _ (w : World api (List ContextInfo) (Unit {0})) (q : ℕ) (cur : Context api)
      (now : w.pool.current ≡ some q) (at_q : get_elem? w.pool.store q ≡ some cur) where
    collect-Describes :
        (cs : List ContextInfo) (m : Dict ℕ)
        → IsMap m
        → Leads w.pool.store m
        → (items : List ContextInfo) × (collect cs (map (λ e. e.1) m) w
            ≡ (returned (cs ++ items), w))
          × Describes w.pool.store cur.name m items
    unfolding collect current_context deref
    collect-Describes cs [] k h = ([], rw (append-nil cs), tt)
    collect-Describes cs (e ∷ m) k h =
        let (c, at, named, _) = h e.0 e.1 (ground (arith, eq_iff e.0 e.0)) in
        let i = describe c cur.name in
        let (items, done, fit) =
          collect-Describes (cs ++ i ∷ []) m k.1 (Leads-tail w.pool.store e m k h) in
        (i ∷ items, ground (arith, done, append_assoc cs (i ∷ []) items), (c, at, named, refl, fit))

  Describes-names :
      (store : List (Context api)) (cur : String) (m : Dict ℕ) (is : List ContextInfo)
      → Describes store cur m is
      → map (λ i. i.name) is ≡ map (λ e. e.0) m
  Describes-names store cur [] [] d = refl
  Describes-names store cur (e ∷ m) (i ∷ is) (c, at, named, here, d) =
      ground (arith, Describes-names store cur m is d)
  Describes-names store cur [] (i ∷ is) d = absurd d
  Describes-names store cur (e ∷ m) [] d = absurd d

  Describes-count :
      (store : List (Context api)) (cur : String) (m : Dict ℕ) (is : List ContextInfo)
      → IsMap m
      → Describes store cur m is
      → current_count is ≡ elim (lookup cur m) [ none ↦ 0 | some _ ↦ 1 ]
  Describes-count store cur [] [] k d = refl
  Describes-count store cur (e ∷ m) (i ∷ is) k (c, at, named, here, d) =
      ground (arith, Describes-count store cur m is k.1 d, eq_iff cur e.0, eq_iff e.0 cur, k.0)
  Describes-count store cur [] (i ∷ is) k d = absurd d
  Describes-count store cur (e ∷ m) [] k d = absurd d

  deref-current :
      (p : ClientPool api) (q : ℕ) (cur : Context api)
      → p.current ≡ some q
      → get_elem? p.store q ≡ some cur
      → current_name p ≡ cur.name
  unfolding deref
  deref-current p q cur now at_q = rw (now, current_name, at_q) refl

  -- For a valid pool `List` answers 200 with one item for each name of the pool, in the order of the
  -- map, which describes the context that the name leads to, and marks exactly one item as current
  -- unless the pool is empty; the pool stays as it is.
  pub list_contexts_lem :
      (w : World api (List ContextInfo) (Unit {0}))
      → IsValid w.pool
      → (items : List ContextInfo) × (handle_list w ≡ (
        returned tt,
        record w { replies = w.replies ++ record { status = 200; body = items } ∷ [] },
      ))
        × Describes w.pool.store (current_name w.pool) w.pool.contexts items
        × (map (λ i. i.name) items ≡ map (λ e. e.0) w.pool.contexts)
        × (current_count items ≡ elim w.pool.contexts [ [] ↦ 0 | _ ∷ _ ↦ 1 ])
  unfolding handle_list collect contexts
  list_contexts_lem w v = elim (Option-cases w.pool.current) [
    | inl absent ↦
        let empty = v.chosen absent in ([], ground (arith, empty), rw empty tt, rw empty, rw empty)
    | inr (q, now) ↦
        let (name, j, (cur, at_q, named, ready), found) = v.listed q now in
        let (items, done, fit) =
          collect-Describes w q cur now at_q [] w.pool.contexts v.keys v.named in
        (
          items,
          ground (arith, done),
          rw (deref-current w.pool q cur now at_q) fit,
          Describes-names w.pool.store cur.name w.pool.contexts items fit,
          Describes-count w.pool.store cur.name w.pool.contexts items v.keys fit
              ∙ found-one cur.name j w.pool.contexts (rw named found),
        )
  ]
