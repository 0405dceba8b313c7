-- ===== src/KubeClient/Locked.antt =====
-- kubeclient/pool.go: `DynamicClient` and `DiscoveryClient` of one context, called by any number of
-- goroutines, statement by statement, with the mutex of the context. What a client constructor of
-- client-go returns may differ from call to call.
pub mod Invariant
pub mod Agreeing
pub mod Alone
pub mod Finishing
pub mod Serial
pub mod Linear
pub mod Pooled
use k8s_explore.Base.{
  ℕ, update, Option, none, some, Error, wrapped, foreign, Result, ok, err, String, ◌≡◌,
}
use k8s_explore.KubeClient.{Api, Context}

-- Which of the two clients.
pub data Kind : Type 0 where
  dynamic discovery : Kind

-- The text of the error of a failed construction.
abbrev pub failure : Kind → String
failure dynamic = "couldn't create dynamic client for given config"
failure discovery = "couldn't create discovery client for given config"

module _ (api : Api) where
  abbrev pub Client : Kind → Type 0
  Client dynamic = api.DynamicClient
  Client discovery = api.DiscoveryClient

  -- What a call returns; the client may be nil.
  abbrev pub Answer : Kind → Type 0
  Answer k = Result (Error api.ApiError) (Option (Client k))

  -- Where a call stands: not made, at `c.mux.Lock()`, at the test of the field, at the constructor, at
  -- the assignment, at the last return, at the deferred `Unlock`, and returned.
  pub data Phase : Type 0 where
    outside : Phase
    wanting : (k : Kind) → Phase
    checking : (k : Kind) → Phase
    building : (k : Kind) → Phase
    storing : (k : Kind) → Client k → Phase
    answering : (k : Kind) → Phase
    leaving : (k : Kind) → Answer k → Phase
    done : (k : Kind) → Answer k → Phase

  -- The context, the call that holds its mutex, and the calls.
  pub record Shared : Type 0 where
    pub context : Context api
    pub holder : Option ℕ
    pub call : ℕ → Phase

  abbrev pub fresh : Context api → Shared
  fresh c = record { context = c; holder = none; call = λ _. outside }

module _ {api : Api} where
  -- `c.dynamicClient` and `c.discoveryClient`
  abbrev pub cached : (k : Kind) → Context api → Option (Client api k)
  cached dynamic c = c.dynamic_client
  cached discovery c = c.discovery_client

  abbrev pub cache : (k : Kind) → Client api k → Context api → Context api
  cache dynamic client c = record c { dynamic_client = some client }
  cache discovery client c = record c { discovery_client = some client }

  abbrev pub after_check : Kind → Context api → Phase api
  after_check k c = elim (cached k c) [ none ↦ building k | some _ ↦ answering k ]

  abbrev pub after_build : (k : Kind) → Result api.ApiError (Client api k) → Phase api
  after_build k (ok client) = storing k client
  after_build k (err e) = leaving k (err (wrapped (failure k) (foreign e)))

  abbrev pub at : ℕ → Phase api → Shared api → Shared api
  at i phase s = record s { call = update s.call i phase }

  pub data Step (s : Shared api) : Shared api → Type 0 where
    calls : (i : ℕ) (k : Kind) → s.call i ≡ outside → Step s (at i (wanting k) s)
    locks :
        (i : ℕ) (k : Kind)
        → s.call i ≡ wanting k
        → s.holder ≡ none
        → Step s (record s { holder = some i; call = update s.call i (checking k) })
    checks : (i : ℕ) (k : Kind) → s.call i ≡ checking k → Step s (at i (after_check k s.context) s)
    builds :
        (i : ℕ) (k : Kind) (built : Result api.ApiError (Client api k))
        → s.call i ≡ building k
        → Step s (at i (after_build k built) s)
    stores :
        (i : ℕ) (k : Kind) (client : Client api k)
        → s.call i ≡ storing k client
        → Step s
            (record s { context = cache k client s.context; call = update s.call i (answering k) })
    answers :
        (i : ℕ) (k : Kind)
        → s.call i ≡ answering k
        → Step s (at i (leaving k (ok (cached k s.context))) s)
    unlocks :
        (i : ℕ) (k : Kind) (answer : Answer api k)
        → s.call i ≡ leaving k answer
        → Step s (record s { holder = none; call = update s.call i (done k answer) })

  pub data Steps : Shared api → Shared api → Type 0 where
    stay : {s : Shared api} → Steps s s
    first : {s t u : Shared api} → Step s t → Steps t u → Steps s u
