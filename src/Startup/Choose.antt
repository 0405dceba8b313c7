-- ===== src/Startup/Choose.antt =====
-- main.go: which context `initKubeClientPool` is to make the current one, from the kubeconfig alone,
-- and what it is to return.
use k8s_explore.Base.{
  String, str_eq, eq_iff, none, some, List, [], ◌∷◌, ◌≡◌, refl, ◌≢◌, inl, inr, arith, Error, Result,
  ok, err, Option-cases, List-cases, if◌then◌else◌,
}
use k8s_explore.Base.Dict.{Dict, lookup}
use k8s_explore.KubeClient.{Api, Context, ClientPool, unknown_context, deref, current_context}
use k8s_explore.KubeClient.Valid.{IsValid}
use k8s_explore.Startup.{RawContext, Loader, no_contexts}
use k8s_explore.Startup.Rounds.{connect, joined}

module _ {api : Api} (loader : Loader api) where
  -- Which context is to be the current one, from the kubeconfig alone: the wanted one if it
  -- connects, the first that connects if none is wanted or the wanted one does not.
  abbrev pub choose : String → Dict RawContext → Result (Error api.ApiError) (Context api)
  choose w es = elim (joined loader es) [
    | [] ↦ err no_contexts
    | first ∷ _ ↦ if str_eq w "" then ok first else elim (lookup w es) [
      | none ↦ err unknown_context
      | some k ↦ elim (connect loader w k) [ none ↦ ok first | some c ↦ ok c ]
    ]
  ]

  -- The pool that a start-up has made: it is valid, holds the contexts that connect in their order,
  -- and `c` is its current context.
  pub record Started (es : Dict RawContext) (c : Context api) (p : ClientPool api) : Type 0 where
    pub valid : IsValid p
    pub members : p.store ≡ joined loader es
    pub current : deref (current_context p) p ≡ some c

  -- The result of the start-up agrees with `choose`: the same error, or a pool with that context.
  abbrev pub Agrees :
      Dict RawContext
      → Result (Error api.ApiError) (Context api)
      → Result (Error api.ApiError) (ClientPool api)
      → Type 0
  Agrees es (err e) r = r ≡ err e
  Agrees es (ok c) r = (p : ClientPool api) × (r ≡ ok p) × Started es c p

  module _ (w : String) (es : Dict RawContext) where
    pub choose-empty : joined loader es ≡ [] → choose w es ≡ err no_contexts
    choose-empty h = rw (h, choose) refl

    pub lookup-joined :
        (es : Dict RawContext) (k : RawContext) (c : Context api)
        → lookup w es ≡ some k
        → connect loader w k ≡ some c
        → joined loader es ≢ []
    lookup-joined [] k c found done = cc
    lookup-joined (e ∷ es) k c found done = elim (Option-cases (connect loader e.0 e.1)) [
      | inr (b, made) ↦ rw (made, joined) (λ h. cc)
      | inl failed ↦ rw (failed, joined) (lookup-joined es k c (ground (arith, eq_iff w e.0)) done)
    ]

    module _ (first : Context api) (rest : List (Context api))
        (some_joined : joined loader es ≡ first ∷ rest) where
      pub choose-blank : w ≡ "" → choose w es ≡ ok first
      choose-blank h = ground (arith, some_joined, eq_iff w "")

      pub choose-unknown : w ≢ "" → lookup w es ≡ none → choose w es ≡ err unknown_context
      choose-unknown ne h = ground (arith, some_joined, eq_iff w "")

      pub choose-failed :
          (k : RawContext)
          → w ≢ ""
          → lookup w es ≡ some k
          → connect loader w k ≡ none
          → choose w es ≡ ok first
      choose-failed k ne h failed = ground (arith, some_joined, eq_iff w "")

      pub choose-found :
          (k : RawContext) (c : Context api)
          → w ≢ ""
          → lookup w es ≡ some k
          → connect loader w k ≡ some c
          → choose w es ≡ ok c
      choose-found k c ne h done = ground (arith, some_joined, eq_iff w "")

    pub choose-wanted :
        (k : RawContext) (c : Context api)
        → w ≢ ""
        → lookup w es ≡ some k
        → connect loader w k ≡ some c
        → choose w es ≡ ok c
    choose-wanted k c ne found done = elim (List-cases (joined loader es)) [
      | inl empty ↦ absurd (lookup-joined es k c found done empty)
      | inr (first, rest, some_joined) ↦ choose-found first rest some_joined k c ne found done
    ]
