-- ===== src/Startup/Attempts.antt =====
-- main.go: how many attempts `initKubeClientPoolWithRetry` makes.
use k8s_explore.Base.{
  ℕ, zero, suc, ◌+◌, ◌*◌, ◌≤◌, ◌<◌, String, Option, none, some, ◌≡◌, refl, arith, Error, ok, err,
  true, false, ltb, Bool-cases, Result-cases, inl, inr,
}
use k8s_explore.KubeClient.{Api, ClientPool}
use k8s_explore.Startup.{Loader, init_kube_client_pool, retry}

module _ {api : Api} (loaders : ℕ → Loader api) (since : ℕ → ℕ) (max_wait : ℕ) where
  -- The calls of `initKubeClientPool` in the loop of `retry`.
  unfoldable pub attempts : ℕ → ℕ → String → ℕ
  attempts zero i flag = 0
  attempts (suc fuel) i flag = elim (ltb (since i) max_wait) [
    | false ↦ 0
    | true ↦
        let (result, flag') = init_kube_client_pool (loaders i) flag in
        elim result [ ok pool ↦ 1 | err e ↦ suc (attempts fuel (i + 1) flag') ]
  ]

  -- The result of the last of `n` attempts from the attempt `i` on, where all before have failed.
  unfoldable pub last_result :
      ℕ
      → ℕ
      → String
      → Option (Error api.ApiError)
      → Option (ClientPool api) × Option (Error api.ApiError)
  last_result zero i flag e = (none, e)
  last_result (suc n) i flag e =
      let (result, flag') = init_kube_client_pool (loaders i) flag in
      elim result [ ok pool ↦ (some pool, none) | err e' ↦ last_result n (i + 1) flag' (some e') ]

  module _ (pause : ℕ) (grows : (i : ℕ) → since i + pause ≤ since (i + 1)) where
    -- Every round sleeps, so the clock gains `pause` on each. Then, on fuel for more than `n` rounds, the
    -- loop makes at most `n` attempts where `n` pauses reach `max_wait`: 300 for the 300 seconds and the
    -- pauses of one of `main`. It returns the result of the last one that it makes, or the error that it
    -- had before if it makes none.
    pub attempts_le :
        (n fuel i : ℕ) (flag : String) (e : Option (Error api.ApiError))
        → max_wait ≤ since i + n * pause
        → n < fuel
        → (attempts fuel i flag ≤ n)
          × (retry loaders since max_wait fuel i flag e
              ≡ some (last_result (attempts fuel i flag) i flag e))
    unfolding attempts retry last_result
    attempts_le n zero i flag e late more = absurd (omega arith)
    attempts_le zero (suc fuel) i flag e late more =
        let over : ltb (since i) max_wait ≡ false = ground arith in
        rw (over, attempts, retry) (omega arith, refl)
    attempts_le (suc n) (suc fuel) i flag e late more = elim (Bool-cases (ltb (since i) max_wait)) [
      | inr over ↦ rw (over, attempts, retry) (omega arith, refl)
      | inl in_time ↦ elim (Result-cases (init_kube_client_pool (loaders i) flag).0) [
        | inl (pool, done) ↦ (ground arith, ground arith)
        | inr (e', failed) ↦
            let (few, returns) =
              attempts_le n fuel (i + 1) (init_kube_client_pool (loaders i) flag).1 (some e')
                (omega (arith, grows i)) (omega arith) in
            (ground arith, ground arith)
      ]
    ]
