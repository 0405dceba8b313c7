-- ===== src/Rest/Contexts/Order.antt =====
-- api/rest/kube/contexts/contexts.go: `List` visits the pool's map of contexts in an order that Go
-- leaves open.
use mathlib.Core.List.{Permᴰ}
use k8s_explore.Base.{
  ℕ, String, List, [], ◌∷◌, ◌++◌, ◌≡◌, ◌∙◌, refl, sym, ap, get_elem?, subst, map, Option-cases, inl,
  inr,
}
use mathlib.Core.Option.{some-injective}
use k8s_explore.Base.Dict.{Dict, lookup}
use k8s_explore.Base.Orders.{OneMap, OneMap-perm, no_entry}
use k8s_explore.KubeClient.{Api, Context, ClientPool, deref}
use k8s_explore.KubeClient.Valid.{IsValid}
use k8s_explore.Rest.Gin.{returned, World}
use k8s_explore.Rest.Contexts.{ContextInfo, handle_list}
use k8s_explore.Rest.Contexts.Listing.{current_count, Describes, current_name, list_contexts_lem}

module _ {api : Api} where
  -- The pool, its map in another order.
  abbrev pub visited_as : Dict ℕ → ClientPool api → ClientPool api
  visited_as es p = record p { contexts = es }

  visited_as-IsValid :
      (p : ClientPool api) (es : Dict ℕ)
      → IsValid p
      → OneMap p.contexts es
      → IsValid (visited_as es p)
  visited_as-IsValid p es v o = record {
    keys = o.other_keys;
    named = λ name r h. v.named name r (o.same name ∙ h);
    listed = λ r h.
        let (name, j, stored, found) = v.listed r h in (name, j, stored, sym (o.same name) ∙ found);
    chosen = λ h. no_entry es (λ key. sym (o.same key) ∙ ap (lookup key) (v.chosen h));
  }

  visited_as-current_name :
      (p : ClientPool api) (es : Dict ℕ) → current_name (visited_as es p) ≡ current_name p
  unfolding deref
  visited_as-current_name p es = elim (Option-cases p.current) [
    | inl absent ↦ rw (absent, current_name) refl
    | inr (r, present) ↦ rw (present, current_name) refl
  ]

  module _ (store : List (Context api)) (cur : String) where
    Describes-one :
        (m : Dict ℕ) (is is' : List ContextInfo)
        → Describes store cur m is
        → Describes store cur m is'
        → is ≡ is'
    Describes-one [] [] [] d d' = refl
    Describes-one (e ∷ m) (i ∷ is) (i' ∷ is') (c, at, _, here, d) (c', at', _, here', d') =
        let one : c ≡ c' = some-injective c c' (sym at ∙ at') in
        cc (one, here, here', Describes-one m is is' d d')
    Describes-one [] (i ∷ is) is' d d' = absurd d
    Describes-one [] [] (i ∷ is') d d' = absurd d'
    Describes-one (e ∷ m) [] is' d d' = absurd d
    Describes-one (e ∷ m) (i ∷ is) [] d d' = absurd d'

    -- The items of another order are those of the first in another order.
    Describes-perm :
        {m m' : Dict ℕ}
        → Permᴰ m m'
        → (is : List ContextInfo) → Describes store cur m is
        → (is' : List ContextInfo) × Describes store cur m' is' × Permᴰ is is'
    Describes-perm Permᴰ.nil [] d = ([], d, Permᴰ.nil)
    Describes-perm (Permᴰ.cons same perm) (i ∷ is) (c, at, named, here, d) =
        let (is', d', moved) = Describes-perm perm is d in
        (
          i ∷ is',
          (c, ap (λ e. get_elem? store e.1) (sym same) ∙ at, named ∙ ap (λ e. e.0) same, here, d'),
          Permᴰ.cons refl moved,
        )
    Describes-perm (Permᴰ.swap first second) (i ∷ j ∷ is)
          (c, at, named, here, (c', at', named', here', d)) =
        (
          j ∷ i ∷ is,
          (
            c',
            ap (λ e. get_elem? store e.1) (sym second) ∙ at',
            named' ∙ ap (λ e. e.0) second,
            here',
            (
              c,
              ap (λ e. get_elem? store e.1) (sym first) ∙ at,
              named ∙ ap (λ e. e.0) first,
              here,
              d,
            ),
          ),
          Permᴰ.swap refl refl,
        )
    Describes-perm (Permᴰ.trans one two) is d =
        let (is', d', moved) = Describes-perm one is d in
        let (is'', d'', moved') = Describes-perm two is' d' in (is'', d'', Permᴰ.trans moved moved')
    Describes-perm Permᴰ.nil (i ∷ is) d = absurd d
    Describes-perm (Permᴰ.cons _ _) [] d = absurd d
    Describes-perm (Permᴰ.swap _ _) [] d = absurd d
    Describes-perm (Permᴰ.swap _ _) (i ∷ []) (_, _, _, _, d) = absurd d

  -- For a valid pool `List` answers 200 with one item for each name of the pool, in the order of the
  -- map, which describes the context that the name leads to, and marks exactly one item as current
  -- unless the pool is empty; the pool stays as it is. For any other order in which it can visit the map
  -- the answer is a permutation of this one.
  pub list_contexts_order :
      (w : World api (List ContextInfo) (Unit {0})) (es : Dict ℕ)
      → IsValid w.pool
      → OneMap w.pool.contexts es
      → let w' : World api (List ContextInfo) (Unit {0}) = record w {
        pool = visited_as es w.pool;
      } in
        (items : List ContextInfo) × (items' : List ContextInfo) × (handle_list w ≡ (
          returned tt,
          record w { replies = w.replies ++ record { status = 200; body = items } ∷ [] },
        ))
        × (handle_list w' ≡ (
          returned tt,
          record w' { replies = w.replies ++ record { status = 200; body = items' } ∷ [] },
        ))
        × Describes w.pool.store (current_name w.pool) w.pool.contexts items
        × (map (λ i. i.name) items ≡ map (λ e. e.0) w.pool.contexts)
        × (current_count items ≡ elim w.pool.contexts [ [] ↦ 0 | _ ∷ _ ↦ 1 ])
        × Permᴰ items items'
  list_contexts_order w es v o =
      let p' = visited_as es w.pool in
      let w' : World api (List ContextInfo) (Unit {0}) = record w { pool = p' } in
      let (items, done, fit, names, count) = list_contexts_lem w v in
      let (items', done', fit', _, _) = list_contexts_lem w' (visited_as-IsValid w.pool es v o) in
      let (moved, fits, perm) =
        Describes-perm w.pool.store (current_name w.pool) (OneMap-perm w.pool.contexts es o) items
          fit in
      let one = Describes-one w.pool.store (current_name w.pool) es moved items' fits (
        subst (λ cur. Describes w.pool.store cur es items') (visited_as-current_name w.pool es)
          fit') in
      (items, items', done, done', fit, names, count, subst (Permᴰ items) one perm)
