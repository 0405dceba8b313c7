-- ===== src/Startup/Visits.antt =====
-- main.go: `initKubeClientPool` visits the map of the kubeconfig's contexts in an order that Go leaves
-- open. What of the choice of the current context depends on it.
use k8s_explore.Base.{
  String, eq_iff, none, some, List, [], ◌∷◌, ◌≡◌, refl, sym, ap, ◌∙◌, ◌⊎◌, inl, inr, arith, ok,
  Option-cases, List-cases,
}
use mathlib.Core.List.{Permᴰ, filter_map}
use mathlib.Core.List.Permᴰ
use k8s_explore.Base.Orders.{OneMap, OneMap-perm, swapped}
use k8s_explore.Base.Dict.{Dict, lookup, IsMap, String-cases}
use k8s_explore.KubeClient.{Api, Context}
use k8s_explore.Startup.{RawContext, RawConfig, Loader}
use k8s_explore.Startup.Rounds.{connect, joined}
use k8s_explore.Startup.Choose.{
  choose, choose-empty, choose-blank, choose-unknown, choose-failed, choose-wanted, lookup-joined,
}

lookup-later :
    {V : Type 0} (name : String) (v : V) (e : String × V) (m : Dict V)
    → lookup e.0 m ≡ none
    → lookup name m ≡ some v
    → lookup name (e ∷ m) ≡ some v
lookup-later name v e m fresh found = elim (String-cases name e.0) [
  | inl same ↦ absurd (cc (fresh, found, ap (λ x. lookup x m) same))
  | inr other ↦ ground (arith, eq_iff name e.0)
]

module _ {api : Api} (loader : Loader api) where
  -- An entry that connects.
  abbrev Joining : Dict RawContext → Type 0
  Joining es =
      (name : String) × (k : RawContext) × (c : Context api) × (lookup name es ≡ some k)
      × (connect loader name k ≡ some c)

  joining :
      (es : Dict RawContext) (c : Context api) (rest : List (Context api))
      → IsMap es
      → joined loader es ≡ c ∷ rest
      → Joining es
  joining [] c rest m h = cc
  joining (e ∷ es) c rest m h = elim (Option-cases (connect loader e.0 e.1)) [
    | inr (d, made) ↦ (e.0, e.1, d, ground (arith, eq_iff e.0 e.0), made)
    | inl failed ↦
        let (name, k, d, found, done) = joining es c rest m.1 (rw (failed, joined) at h) in
        (name, k, d, lookup-later name k e es m.0 found, done)
  ]

  -- The kubeconfig leaves the current context open: none is wanted, or the wanted one does not connect.
  abbrev pub Undecided : String → Dict RawContext → Type 0
  Undecided w es =
      (w ≡ "") ⊎ ((k : RawContext) × (lookup w es ≡ some k) × (connect loader w k ≡ none))

  -- Two orders of one map.
  module _ (es es' : Dict RawContext) (o : OneMap es es') where
    joined-empty : joined loader es' ≡ [] → joined loader es ≡ []
    joined-empty empty = elim (List-cases (joined loader es)) [
      | inl h ↦ h
      | inr (c, rest, h) ↦
          let (name, k, d, found, done) = joining es c rest o.keys h in
          absurd (lookup-joined loader name es' es' k d (sym (o.same name) ∙ found) done empty)
    ]

    -- What the kubeconfig decides.
    abbrev pub SameChoice : String → Type 0
    SameChoice w =
        (choose loader w es ≡ choose loader w es')
        ⊎ (Undecided w es
            × (c : Context api) × (c' : Context api) × (choose loader w es ≡ ok c)
            × (choose loader w es' ≡ ok c'))

    choose_some :
        (w : String) (c c' : Context api) (rest rest' : List (Context api))
        → joined loader es ≡ c ∷ rest
        → joined loader es' ≡ c' ∷ rest'
        → SameChoice w
    choose_some w c c' rest rest' some_joined some_joined' = elim (String-cases w "") [
      | inl blank ↦ inr (
        inl blank,
        c,
        c',
        choose-blank loader w es c rest some_joined blank,
        choose-blank loader w es' c' rest' some_joined' blank,
      )
      | inr ne ↦ elim (Option-cases (lookup w es)) [
        | inl missing ↦ inl (
            choose-unknown loader w es c rest some_joined ne missing
            ∙ sym (choose-unknown loader w es' c' rest' some_joined' ne (sym (o.same w) ∙ missing)))
        | inr (k, found) ↦
            let found' = sym (o.same w) ∙ found in
            elim (Option-cases (connect loader w k)) [
              | inl failed ↦ inr (
                inr (k, found, failed),
                c,
                c',
                choose-failed loader w es c rest some_joined k ne found failed,
                choose-failed loader w es' c' rest' some_joined' k ne found' failed,
              )
              | inr (d, done) ↦ inl (
                  choose-wanted loader w es k d ne found done
                  ∙ sym (choose-wanted loader w es' k d ne found' done))
            ]
      ]
    ]

  pub choose_order :
      (es es' : Dict RawContext) (o : OneMap es es') (w : String)
      → (choose loader w es ≡ choose loader w es')
        ⊎ (Undecided w es
            × (c : Context api) × (c' : Context api) × (choose loader w es ≡ ok c)
            × (choose loader w es' ≡ ok c'))
  choose_order es es' o w = elim (List-cases (joined loader es)) [
    | inl empty ↦ inl (
        choose-empty loader w es empty
        ∙ sym (choose-empty loader w es' (joined-empty es' es (swapped o) empty)))
    | inr (c, rest, some_joined) ↦ elim (List-cases (joined loader es')) [
      | inl empty ↦ absurd (cc (some_joined, joined-empty es es' o empty))
      | inr (c', rest', some_joined') ↦
          choose_some es es' o w c c' rest rest' some_joined some_joined'
    ]
  ]

  -- The loader of a kubeconfig whose map is visited in another order.
  abbrev pub reordered : RawConfig → Loader api
  reordered raw = record loader { raw_config = λ _. ok raw }

  pub joined-reordered :
      (raw : RawConfig) (es : Dict RawContext) → joined (reordered raw) es ≡ joined loader es
  joined-reordered raw [] = refl
  joined-reordered raw (e ∷ es) =
      ap (λ rest. elim (connect loader e.0 e.1) [ none ↦ rest | some c ↦ c ∷ rest ])
        (joined-reordered raw es)

  pub choose-reordered :
      (raw : RawConfig) (w : String) (es : Dict RawContext)
      → choose (reordered raw) w es ≡ choose loader w es
  choose-reordered raw w es = rw (joined-reordered raw es, choose) refl

  joined-filter_map :
      (es : Dict RawContext) → joined loader es ≡ filter_map (λ e. connect loader e.0 e.1) es
  unfolding filter_map
  joined-filter_map [] = refl
  joined-filter_map (e ∷ es) = elim (Option-cases (connect loader e.0 e.1)) [
    | inl failed ↦ rw (failed, joined) (joined-filter_map es)
    | inr (c, made) ↦ rw (made, joined) (ap (λ rest. c ∷ rest) (joined-filter_map es))
  ]

  pub joined-perm :
      (es es' : Dict RawContext) → OneMap es es' → Permᴰ (joined loader es) (joined loader es')
  joined-perm es es' o =
      rw (joined-filter_map es, joined-filter_map es')
        (Permᴰ.filter_map (λ e. connect loader e.0 e.1) (OneMap-perm es es' o))
