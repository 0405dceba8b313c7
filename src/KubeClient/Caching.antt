-- ===== src/KubeClient/Caching.antt =====
-- kubeclient/pool.go: a context builds each of its clients once.
use k8s_explore.Base.{
  ℕ, String, some, Error, ok, err, ◌≡◌, refl, sym, ◌∙◌, [], ℕ_discrete, ◌≢◌, ◌⊎◌, inl, inr, arith,
  List, get_elem?, set, get_elem?-set_self, get_elem?-set_ne, Option-cases, Result-cases,
  set-get_elem?,
}
use k8s_explore.KubeClient.{
  Api, Context, ClientPool, dynamic_client, discovery_client, dynamic_client_at,
  discovery_client_at, deref, context, contexts, current_context,
}
use k8s_explore.KubeClient.Valid.{IsValid, IsReady, IsStored}

module _ {api : Api} where
  -- A successful `DynamicClient` leaves the client cached, and changes nothing else.
  dynamic_client-ok :
      (c : Context api) (d : api.DynamicClient)
      → (dynamic_client c).0 ≡ ok d
      → (dynamic_client c).1 ≡ record c { dynamic_client = some d }
  unfolding dynamic_client
  dynamic_client-ok c d h = ground arith

  dynamic_client-err :
      (c : Context api) (e : Error api.ApiError)
      → (dynamic_client c).0 ≡ err e
      → (dynamic_client c).1 ≡ c
  unfolding dynamic_client
  dynamic_client-err c e h = ground arith

  discovery_client-name : (c : Context api) → (discovery_client c).1.name ≡ c.name
  unfolding discovery_client
  discovery_client-name c = ground arith

  discovery_client-dynamic_client :
      (c : Context api) → (discovery_client c).1.dynamic_client ≡ c.dynamic_client
  unfolding discovery_client
  discovery_client-dynamic_client c = ground arith

  dynamic_client_cached :
      (c : Context api) (d : api.DynamicClient)
      → c.dynamic_client ≡ some d
      → dynamic_client c ≡ (ok d, c)
  unfolding dynamic_client
  dynamic_client_cached c d h = ground arith

  -- What a call of `DynamicClient` on the context `c` at `r` has done: later calls return the same
  -- client and change nothing, and no other pointer leads to another context than before.
  pub record Cached (r : ℕ) (d : api.DynamicClient) (p p' : ClientPool api) : Type 0 where
    pub cell : Context api
    pub stored : deref (some r) p' ≡ some cell
    pub again : dynamic_client_at r cell p' ≡ (ok d, p')
    pub others : (j : ℕ) → j ≢ r → deref (some j) p' ≡ deref (some j) p

  -- A call of `DynamicClient` on a stored context fails and leaves the pool alone, or returns a
  -- client that every later call returns too, without another construction.
  pub dynamic_client_at-once :
      (r : ℕ) (c : Context api) (p : ClientPool api)
      → deref (some r) p ≡ some c
      → ((e : Error api.ApiError) × (dynamic_client_at r c p ≡ (err e, p)))
        ⊎ ((d : api.DynamicClient) × (p' : ClientPool api) × (dynamic_client_at r c p ≡ (ok d, p'))
            × Cached r d p p')
  unfolding deref dynamic_client_at
  dynamic_client_at-once r c p at = elim (Result-cases (dynamic_client c).0) [
    | inr (e, failed) ↦
        inl (e, ground (arith, dynamic_client-err c e, set-get_elem? p.store r c at))
    | inl (d, made) ↦
        let c' : Context api = record c { dynamic_client = some d } in
        let at' = get_elem?-set_self p.store r c' at in
        inr (
          d,
          record p { store = set p.store r c' },
          ground (arith, dynamic_client-ok c d),
          record {
            cell = c';
            stored = at';
            again =
                ground (
                  arith,
                  dynamic_client_cached c' d refl,
                  set-get_elem? (set p.store r c') r c' at',
                );
            others = λ j ne. get_elem?-set_ne p.store r j c' (λ e. ne (sym e));
          },
        )
  ]

  IsStored-dynamic_client_at :
      (name : String) (r : ℕ) (c : Context api) (p : ClientPool api)
      → IsStored p.store r name
      → deref (some r) p ≡ some c
      → (d : api.DynamicClient) × (dynamic_client_at r c p ≡ (ok d, p))
  unfolding deref dynamic_client_at
  IsStored-dynamic_client_at name r c p (c', at', same, (d, ready)) at =
      (d, ground (arith, dynamic_client_cached c d, set-get_elem? p.store r c at))

  -- In a valid pool the context behind a name has its client: `DynamicClient` succeeds there and
  -- changes nothing.
  -- The client that the pool has for a context.
  abbrev pub ClientOf : String → ClientPool api → api.DynamicClient → Type 0
  ClientOf name p d =
      (r : ℕ) × (c : Context api) × (context name p ≡ ok r)
      × (deref (some r) p ≡ some c)
      × (c.name ≡ name)
      × (dynamic_client_at r c p ≡ (ok d, p))

  pub context-ready :
      (name : String) (r : ℕ) (p : ClientPool api)
      → IsValid p
      → context name p ≡ ok r
      → (c : Context api) × (d : api.DynamicClient) × (deref (some r) p ≡ some c)
        × (c.name ≡ name)
        × (dynamic_client_at r c p ≡ (ok d, p))
  unfolding context deref
  context-ready name r p v h =
      let stored = v.named name r (ground arith) in
      let (d, done) = IsStored-dynamic_client_at name r stored.0 p stored stored.1 in
      (stored.0, d, stored.1, stored.2, done)

  -- A valid pool that is not empty has a current context, `DynamicClient` succeeds there and changes
  -- nothing.
  pub current_context-ready :
      (p : ClientPool api)
      → IsValid p
      → contexts p ≢ []
      → (r : ℕ) × (c : Context api) × (d : api.DynamicClient) × (current_context p ≡ some r)
        × (deref (some r) p ≡ some c)
        × (dynamic_client_at r c p ≡ (ok d, p))
  unfolding contexts current_context deref
  current_context-ready p v some_context = elim (Option-cases p.current) [
    | inl absent ↦ absurd (some_context (rw (v.chosen absent)))
    | inr (r, present) ↦
        let (name, j, stored, _) = v.listed r present in
        let (d, done) = IsStored-dynamic_client_at name r stored.0 p stored stored.1 in
        (r, stored.0, d, present, stored.1, done)
  ]

  -- A write that keeps a context's name, and its client if it has one, keeps what names lead to.
  pub IsStored-set :
      (store : List (Context api)) (r j : ℕ) (name : String) (c c' : Context api)
      → get_elem? store r ≡ some c
      → c'.name ≡ c.name
      → (IsReady c → IsReady c')
      → IsStored store j name
      → IsStored (set store r c') j name
  IsStored-set store r j name c c' at same keep (b, at_j, named, ready) = elim (ℕ_discrete r j) [
    | yes e ↦
        let here : b ≡ c = ground arith in
        (
          c',
          rw (← e) (get_elem?-set_self store r c' at),
          same ∙ (rw here at named),
          keep (rw here at ready),
        )
    | no ne ↦ (b, get_elem?-set_ne store r j c' ne ∙ at_j, named, ready)
  ]

  -- `DiscoveryClient` on a stored context keeps the pool valid, whatever it returns.
  pub discovery_client_at-IsValid :
      (r : ℕ) (c : Context api) (p : ClientPool api)
      → deref (some r) p ≡ some c
      → IsValid p
      → IsValid (discovery_client_at r c p).1
  unfolding deref discovery_client_at
  discovery_client_at-IsValid r c p at v = record {
    keys = v.keys;
    named = λ name j h. keep name j (v.named name j h);
    listed =
        λ j h. let (name, k, stored, found) = v.listed j h in (name, k, keep name j stored, found);
    chosen = v.chosen;
  }
    where
      keep :
          (name : String) (j : ℕ)
          → IsStored p.store j name
          → IsStored (set p.store r (discovery_client c).1) j name
      keep name j =
          IsStored-set p.store r j name c (discovery_client c).1 at (discovery_client-name c)
            (λ h. (h.0, discovery_client-dynamic_client c ∙ h.1))
