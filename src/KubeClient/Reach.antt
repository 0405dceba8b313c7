-- ===== src/KubeClient/Reach.antt =====
-- kubeclient/pool.go: the pools that any calls of its methods lead to.
use k8s_explore.Base.{ℕ, String, some, ◌≡◌, arith, set}
use k8s_explore.KubeClient.{
  Api, Context, ClientPool, new_pool, add, set_current, deref, dynamic_client, dynamic_client_at,
  discovery_client_at,
}
use k8s_explore.KubeClient.Valid.{
  IsValid, IsReady, IsStored, new_pool-IsValid, add-IsValid, set_current-IsValid,
}
use k8s_explore.KubeClient.Caching.{IsStored-set, discovery_client_at-IsValid}

module _ {api : Api} where
  -- A call that changes the pool: `Add`, `SetCurrent`, or a client of a context that the pool holds or
  -- has held, asked for by any of its users.
  pub data Step (p : ClientPool api) : ClientPool api → Type 0 where
    adds :
        (name user cluster namespace : String) (config : api.Config)
        → Step p (add name user cluster namespace config p).1
    sets_current : (name : String) → Step p (set_current name p).1
    asks_dynamic :
        (r : ℕ) (c : Context api) → deref (some r) p ≡ some c → Step p (dynamic_client_at r c p).1
    asks_discovery :
        (r : ℕ) (c : Context api) → deref (some r) p ≡ some c → Step p (discovery_client_at r c p).1

  pub data Reach : ClientPool api → Type 0 where
    start : Reach (new_pool api)
    later : {p p' : ClientPool api} → Reach p → Step p p' → Reach p'

  dynamic_client-name : (c : Context api) → (dynamic_client c).1.name ≡ c.name
  unfolding dynamic_client
  dynamic_client-name c = ground arith

  -- A client that is cached stays.
  dynamic_client-IsReady : (c : Context api) → IsReady c → IsReady (dynamic_client c).1
  unfolding dynamic_client
  dynamic_client-IsReady c (d, ready) = (d, ground (arith, ready))

  pub dynamic_client_at-IsValid :
      (r : ℕ) (c : Context api) (p : ClientPool api)
      → deref (some r) p ≡ some c
      → IsValid p
      → IsValid (dynamic_client_at r c p).1
  unfolding deref dynamic_client_at
  dynamic_client_at-IsValid r c p at v = record {
    keys = v.keys;
    named = λ name j h. keep name j (v.named name j h);
    listed =
        λ j h. let (name, k, stored, found) = v.listed j h in (name, k, keep name j stored, found);
    chosen = v.chosen;
  }
    where
      keep :
          (name : String) (j : ℕ)
          → IsStored p.store j name
          → IsStored (set p.store r (dynamic_client c).1) j name
      keep name j =
          IsStored-set p.store r j name c (dynamic_client c).1 at (dynamic_client-name c)
            (dynamic_client-IsReady c)

  Step-IsValid : {p p' : ClientPool api} → Step p p' → IsValid p → IsValid p'
  Step-IsValid {p} (adds name user cluster namespace config) v =
      add-IsValid name user cluster namespace config p v
  Step-IsValid {p} (sets_current name) v = set_current-IsValid name p v
  Step-IsValid {p} (asks_dynamic r c at) v = dynamic_client_at-IsValid r c p at v
  Step-IsValid {p} (asks_discovery r c at) v = discovery_client_at-IsValid r c p at v

  -- Whatever calls have been made on a new pool, in whatever order and with whatever errors, the pool
  -- is valid: each name stands once and leads to a stored context of that name with its client, and
  -- the current context is a stored one, there as soon as the pool has a name.
  pub Reach-IsValid : {p : ClientPool api} → Reach p → IsValid p
  Reach-IsValid start = new_pool-IsValid
  Reach-IsValid (later r st) = Step-IsValid st (Reach-IsValid r)
