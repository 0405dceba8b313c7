-- ===== src/KubeClient/Locked/Alone.antt =====
-- kubeclient/pool.go: the methods of a context that build its clients, by what is cached and what their
-- constructors return.
use k8s_explore.Base.{
  Option, none, some, wrapped, foreign, Result, ok, err, Option-cases, Result-cases, inl, inr, ◌≡◌,
  ◌∙◌, sym, ap, arith,
}
use k8s_explore.KubeClient.{Api, Context, dynamic_client, discovery_client}
use k8s_explore.KubeClient.Locked.{Kind, dynamic, discovery, failure, Client, Answer, cached, cache}

abbrev present : {E A : Type 0} → Result E A → Result E (Option A)
present (ok a) = ok (some a)
present (err e) = err e

module _ {api : Api} where
  -- The method on its own.
  abbrev pub alone : (k : Kind) → Context api → Answer api k × Context api
  alone dynamic c = (present (dynamic_client c).0, (dynamic_client c).1)
  alone discovery c = (present (discovery_client c).0, (discovery_client c).1)

  -- The constructor that the method calls.
  abbrev pub construct : (k : Kind) → Context api → Result api.ApiError (Client api k)
  construct dynamic c = api.dynamic_new_for_config c.config
  construct discovery c = api.discovery_new_for_config c.config

  pub alone-cached :
      (k : Kind) (c : Context api) (client : Client api k)
      → cached k c ≡ some client
      → alone k c ≡ (ok (some client), c)
  unfolding dynamic_client discovery_client
  alone-cached dynamic c client h = ground arith
  alone-cached discovery c client h = ground arith

  pub alone-built :
      (k : Kind) (c : Context api) (client : Client api k)
      → cached k c ≡ none
      → construct k c ≡ ok client
      → alone k c ≡ (ok (some client), cache k client c)
  unfolding dynamic_client discovery_client
  alone-built dynamic c client h made = ground arith
  alone-built discovery c client h made = ground arith

  pub alone-failed :
      (k : Kind) (c : Context api) (e : api.ApiError)
      → cached k c ≡ none
      → construct k c ≡ err e
      → alone k c ≡ (err (wrapped (failure k) (foreign e)), c)
  unfolding dynamic_client discovery_client
  alone-failed dynamic c e h failed = ground arith
  alone-failed discovery c e h failed = ground arith

  -- The method, where the field is `found` and the constructor, if it is called, returns `got`.
  abbrev pub run_found :
      (k : Kind)
      → Option (Client api k)
      → Result api.ApiError (Client api k)
      → Context api
      → Answer api k × Context api
  run_found k (some client) got c = (ok (some client), c)
  run_found k none (ok client) c = (ok (some client), cache k client c)
  run_found k none (err e) c = (err (wrapped (failure k) (foreign e)), c)

  abbrev pub run_with :
      (k : Kind) → Result api.ApiError (Client api k) → Context api → Answer api k × Context api
  run_with k got c = run_found k (cached k c) got c

  pub run_with-cached :
      (k : Kind) (got : Result api.ApiError (Client api k)) (c : Context api)
      (client : Client api k)
      → cached k c ≡ some client
      → run_with k got c ≡ (ok (some client), c)
  run_with-cached k got c client h = ap (λ found. run_found k found got c) h

  pub run_with-built :
      (k : Kind) (got : Result api.ApiError (Client api k)) (c : Context api)
      (client : Client api k)
      → cached k c ≡ none
      → got ≡ ok client
      → run_with k got c ≡ (ok (some client), cache k client c)
  run_with-built k got c client h made =
      ap (λ found. run_found k found got c) h ∙ ap (λ x. run_found k none x c) made

  pub run_with-failed :
      (k : Kind) (got : Result api.ApiError (Client api k)) (c : Context api) (e : api.ApiError)
      → cached k c ≡ none
      → got ≡ err e
      → run_with k got c ≡ (err (wrapped (failure k) (foreign e)), c)
  run_with-failed k got c e h failed =
      ap (λ found. run_found k found got c) h ∙ ap (λ x. run_found k none x c) failed

  -- On its own, it runs with what the configuration gives.
  pub run_with-construct : (k : Kind) (c : Context api) → run_with k (construct k c) c ≡ alone k c
  run_with-construct k c = elim (Option-cases (cached k c)) [
    | inr (client, there) ↦
        run_with-cached k (construct k c) c client there ∙ sym (alone-cached k c client there)
    | inl empty ↦ elim (Result-cases (construct k c)) [
      | inl (client, made) ↦
          run_with-built k (construct k c) c client empty made
          ∙ sym (alone-built k c client empty made)
      | inr (e, failed) ↦
          run_with-failed k (construct k c) c e empty failed ∙ sym (alone-failed k c e empty failed)
    ]
  ]
