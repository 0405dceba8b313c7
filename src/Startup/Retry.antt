-- ===== src/Startup/Retry.antt =====
-- main.go: `initKubeClientPoolWithRetry` ends, what it returns, and which context a second attempt
-- is after.
use k8s_explore.Base.{
  ℕ, zero, suc, ◌+◌, ◌*◌, ◌≤◌, ◌<◌, String, Option, none, some, [], ◌≡◌, sym, ◌∙◌, ◌≢◌, inl, inr,
  arith, Error, ok, err, true, false, ltb, Bool-cases, Result-cases,
}
use k8s_explore.Base.Dict.{lookup, IsMap}
use k8s_explore.KubeClient.{Api, Context, ClientPool, deref, current_context}
use k8s_explore.Startup.{RawContext, RawConfig, Loader, init_kube_client_pool, retry}
use k8s_explore.Startup.Rounds.{connect, joined, last_name}
use k8s_explore.Startup.Choice.{
  init_kube_client_pool-Agrees, init_kube_client_pool-empty, init_kube_client_pool-wanted,
}

module _ {api : Api} (loaders : ℕ → Loader api) (since : ℕ → ℕ) (max_wait : ℕ) where
  module _ (fuel i : ℕ) (flag : String) (e : Option (Error api.ApiError)) where
    retry-over :
        ltb (since i) max_wait ≡ false
        → retry loaders since max_wait (suc fuel) i flag e ≡ some (none, e)
    unfolding retry
    retry-over h = ground arith

    module _ (more : ltb (since i) max_wait ≡ true) where
      retry-done :
          (p : ClientPool api)
          → (init_kube_client_pool (loaders i) flag).0 ≡ ok p
          → retry loaders since max_wait (suc fuel) i flag e ≡ some (some p, none)
      unfolding retry
      retry-done p h = ground arith

      retry-again :
          (e' : Error api.ApiError)
          → (init_kube_client_pool (loaders i) flag).0 ≡ err e'
          → retry loaders since max_wait (suc fuel) i flag e
            ≡ retry loaders since max_wait fuel
                (i + 1)
                (init_kube_client_pool (loaders i) flag).1
                (some e')
      unfolding retry
      retry-again e' h = ground arith

  abbrev Returns : ℕ → ℕ → String → Option (Error api.ApiError) → Type 0
  Returns fuel i flag e =
      (r : Option (ClientPool api) × Option (Error api.ApiError)) × (retry loaders since max_wait
          fuel i flag e
        ≡ some r)

  Returns-suc :
      (n i : ℕ) (flag : String) (e : Option (Error api.ApiError))
      → ((flag' : String) (e' : Option (Error api.ApiError))
          → since i < max_wait
          → Returns n (i + 1) flag' e')
      → Returns (suc n) i flag e
  Returns-suc n i flag e later = elim (Bool-cases (ltb (since i) max_wait)) [
    | inr over ↦ (_, retry-over n i flag e over)
    | inl more ↦ elim (Result-cases (init_kube_client_pool (loaders i) flag).0) [
      | inl (pool, done) ↦ (_, retry-done n i flag e more pool done)
      | inr (e', failed) ↦
          let flag' = (init_kube_client_pool (loaders i) flag).1 in
          let (r, h) = later flag' (some e') (ground arith) in
          (r, retry-again n i flag e more e' failed ∙ h)
    ]
  ]

  -- Each round sleeps, so the clock gains at least `pause` on every round. Then fuel for
  -- `max_wait / pause` more rounds is enough, whatever the loaders do.
  pub retry_total :
      (pause : ℕ) (grows : (i : ℕ) → since i + pause ≤ since (i + 1)) (n i : ℕ) (flag : String)
      (e : Option (Error api.ApiError))
      → max_wait ≤ since i + n * pause
      → (r : Option (ClientPool api) × Option (Error api.ApiError)) × (retry loaders since max_wait
            (suc n)
            i
            flag
            e
          ≡ some r)
  retry_total pause grows zero i flag e enough =
      Returns-suc zero i flag e (λ flag' e' more. absurd (omega arith))
  retry_total pause grows (suc n) i flag e enough =
      Returns-suc (suc n) i flag e
        (λ flag' e' more. retry_total pause grows n (i + 1) flag' e' (omega (arith, grows i)))

  -- How an ended loop can have ended: a pool comes with no error, from an attempt made in time; and
  -- no pool comes with the error of the last attempt, or with no error if there was no attempt.
  pub data Ended (i : ℕ) (e : Option (Error api.ApiError))
      (r : Option (ClientPool api) × Option (Error api.ApiError)) : Type 0 where
    attempted :
        (j : ℕ) (flag : String) (p : ClientPool api)
        → since j < max_wait
        → (init_kube_client_pool (loaders j) flag).0 ≡ ok p
        → r ≡ (some p, none)
        → Ended i e r
    too_late : max_wait ≤ since i → r ≡ (none, e) → Ended i e r
    gave_up :
        (j : ℕ) (flag : String) (e' : Error api.ApiError)
        → (init_kube_client_pool (loaders j) flag).0 ≡ err e'
        → max_wait ≤ since (j + 1)
        → r ≡ (none, some e')
        → Ended i e r

  Ended-again :
      (i : ℕ) (flag : String) (e : Option (Error api.ApiError)) (e' : Error api.ApiError)
      (r : Option (ClientPool api) × Option (Error api.ApiError))
      → (init_kube_client_pool (loaders i) flag).0 ≡ err e'
      → Ended (i + 1) (some e') r
      → Ended i e r
  Ended-again i flag e e' r failed (attempted j f p t h q) = attempted j f p t h q
  Ended-again i flag e e' r failed (too_late t q) = gave_up i flag e' failed t q
  Ended-again i flag e e' r failed (gave_up j f x h t q) = gave_up j f x h t q

  -- What `initKubeClientPoolWithRetry` returns is the pool of an attempt that succeeded, or the error
  -- that it was called with where the time was over at once, or else the error of the last attempt,
  -- after which the time was over.
  pub retry-Ended :
      (fuel i : ℕ) (flag : String) (e : Option (Error api.ApiError))
      (r : Option (ClientPool api) × Option (Error api.ApiError))
      → retry loaders since max_wait fuel i flag e ≡ some r
      → Ended i e r
  unfolding retry
  retry-Ended zero i flag e r h = cc
  retry-Ended (suc n) i flag e r h = elim (Bool-cases (ltb (since i) max_wait)) [
    | inr over ↦ too_late (ground arith) (ground (arith, retry-over n i flag e over))
    | inl more ↦ elim (Result-cases (init_kube_client_pool (loaders i) flag).0) [
      | inl (pool, done) ↦
          attempted i flag pool (ground arith) done
            (ground (arith, retry-done n i flag e more pool done))
      | inr (e', failed) ↦ Ended-again i flag e e' r failed (
          retry-Ended n (i + 1) (init_kube_client_pool (loaders i) flag).1 (some e') r
            (sym (retry-again n i flag e more e' failed) ∙ h))
    ]
  ]

  -- The first attempt finds no context that connects. Then the second is after the context `x` that
  -- the first visited last, and makes it current if it connects by then, whatever the flag named.
  pub retry_forgets :
      (flag x : String) (raw raw' : RawConfig) (k : RawContext) (c : Context api) (fuel : ℕ)
      → (loaders 0).raw_config flag ≡ ok raw
      → IsMap raw.contexts
      → joined (loaders 0) raw.contexts ≡ []
      → last_name raw.contexts flag ≡ x
      → x ≢ ""
      → (loaders 1).raw_config x ≡ ok raw'
      → IsMap raw'.contexts
      → lookup x raw'.contexts ≡ some k
      → connect (loaders 1) x k ≡ some c
      → since 0 < max_wait
      → since 1 < max_wait
      → (p : ClientPool api) × (retry loaders since max_wait (suc (suc fuel)) 0 flag none
          ≡ some (some p, none))
        × (deref (current_context p) p ≡ some c)
  retry_forgets flag x raw raw' k c fuel loaded m empty last ne loaded' m' found done t t' =
      let first = init_kube_client_pool-empty (loaders 0) flag raw loaded m empty in
      let named = (init_kube_client_pool-Agrees (loaders 0) flag raw loaded m).1 ∙ last in
      let (p, second, started) =
        init_kube_client_pool-wanted (loaders 1) x raw' k c loaded' m' ne found done in
      (
        p,
        retry-again (suc fuel) 0 flag none (ground arith) _ first
            ∙ retry-done fuel 1 _ _ (ground arith) p (rw named second),
        started.current,
      )
