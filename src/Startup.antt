-- ===== src/Startup.antt =====
-- main.go: `initKubeClientPool` and `initKubeClientPoolWithRetry`, which fill the pool at start-up.
-- The kubeconfig loader, a library outside the repository, is the parameter `Loader`: both of its
-- calls read the context flag. The map `rawConfig.Contexts` is a list of entries in the order in
-- which `range` visits them. The flag `--context` is passed in and out, since the loop stores the
-- address of its variable there (one variable for all rounds: go.mod says go 1.20).
pub mod Rounds
pub mod Members
pub mod Wanted
pub mod Choose
pub mod Choice
pub mod Visits
pub mod Order
pub mod Retry
pub mod Attempts
pub mod Run
use k8s_explore.Base.{
  ℕ, zero, suc, ◌+◌, String, str_eq, Option, none, some, List, [], ◌∷◌, not, Bool, true, false, ltb,
  Error, message, foreign, Result, ok, err, if◌then◌else◌,
}
use k8s_explore.Base.Dict.{Dict}
use k8s_explore.KubeClient.{Api, ClientPool, new_pool, add, set_current, contexts}

-- `clientcmdapi.Context`
pub record RawContext : Type 0 where
  pub auth_info : String
  pub cluster : String
  pub namespace : String

-- `clientcmdapi.Config`
pub record RawConfig : Type 0 where
  pub current_context : String
  pub contexts : Dict RawContext

-- `flags.ToRawKubeConfigLoader()`: its calls depend on the context flag.
pub record Loader (api : Api) : Type 0 where
  pub raw_config : String → Result api.ApiError RawConfig
  pub client_config : String → Result api.ApiError api.Config

-- `if name == curKubeCtx { curKubeCtx = "" }`
abbrev pub forget : String → String → String
forget name cur = if str_eq name cur then "" else cur

abbrev pub is_nil {ℓ} : {A : Type ℓ} → List A → Bool
is_nil [] = true
is_nil (_ ∷ _) = false

-- The error of a start-up with an empty pool.
abbrev pub no_contexts : {E : Type 0} → Error E
no_contexts = message "no functional contexts found"

-- `curKubeCtx` before the loop.
abbrev pub wanted : String → RawConfig → String
wanted flag raw = if str_eq flag "" then raw.current_context else flag

module _ (api : Api) where
  -- What the loop carries: `curKubeCtx`, the flag and the pool.
  pub record Progress : Type 0 where
    pub cur : String
    pub flag : String
    pub pool : ClientPool api

module _ {api : Api} (loader : Loader api) where
  -- The loop over `rawConfig.Contexts`.
  unfoldable pub init_loop : Dict RawContext → Progress api → Progress api
  init_loop [] s = s
  init_loop (e ∷ es) s = elim (loader.client_config e.0) [
    | err _ ↦ init_loop es (record s { cur = forget e.0 s.cur; flag = e.0 })
    | ok config ↦
        let (failed, pool) = add e.0 e.1.auth_info e.1.cluster e.1.namespace config s.pool in
        elim failed [
          | some _ ↦ init_loop es (record { cur = forget e.0 s.cur; flag = e.0; pool = pool })
          | none ↦ init_loop es (record { cur = s.cur; flag = e.0; pool = pool })
        ]
  ]

  -- The tests after the loop.
  unfoldable pub finish : Progress api → Result (Error api.ApiError) (ClientPool api)
  finish s =
      if is_nil (contexts s.pool)
      then err no_contexts
      else if not (str_eq s.cur "")
      then (let (failed, pool) = set_current s.cur s.pool in
          elim failed [ some e ↦ err e | none ↦ ok pool ])
      else ok s.pool

  -- `initKubeClientPool`: the result, and the context flag afterwards.
  unfoldable pub init_kube_client_pool :
      String → Result (Error api.ApiError) (ClientPool api) × String
  init_kube_client_pool flag = elim (loader.raw_config flag) [
    | err e ↦ (err (foreign e), flag)
    | ok raw ↦
        let s =
          init_loop raw.contexts
            (record { cur = wanted flag raw; flag = flag; pool = new_pool api }) in
        (finish s, s.flag)
  ]

-- `initKubeClientPoolWithRetry`, on fuel. Attempt `i` meets the loader `loaders i`, and `since i` is
-- what `time.Since(startAt)` reads before it. `pool` and `err` are Go's named results.
module _ {api : Api} (loaders : ℕ → Loader api) (since : ℕ → ℕ) (max_wait : ℕ) where
  unfoldable pub retry :
      ℕ
      → ℕ
      → String
      → Option (Error api.ApiError)
      → Option (Option (ClientPool api) × Option (Error api.ApiError))
  retry zero i flag e = none
  retry (suc fuel) i flag e = elim (ltb (since i) max_wait) [
    | false ↦ some (none, e)
    | true ↦
        let (result, flag') = init_kube_client_pool (loaders i) flag in
        elim result [
          | ok pool ↦ some (some pool, none)
          | err e' ↦ retry fuel (i + 1) flag' (some e')
        ]
  ]
