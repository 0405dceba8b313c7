-- ===== src/KubeClient/Locked/Invariant.antt =====
-- kubeclient/pool.go: what holds at every moment of the calls that share a context.
use k8s_explore.Base.{
  subst, ℕ_discrete, ℕ, update, Option, none, some, ok, err, ◌≡◌, ◌≢◌, refl, arith, sym,
}
use k8s_explore.KubeClient.{Api, Context}
use k8s_explore.KubeClient.Locked.{
  Kind, dynamic, discovery, Client, Answer, Phase, outside, wanting, checking, building, storing,
  answering, leaving, done, Shared, fresh, cached, cache,
}

module _ {api : Api} where
  -- The answer is an error, or the client that is cached.
  abbrev pub IsCached : (k : Kind) → Context api → Answer api k → Type 0
  IsCached k c (err _) = Unit
  IsCached k c (ok o) = (client : Client api k) × (o ≡ some client) × (cached k c ≡ some client)

  -- What a call at this point knows of the mutex and of the context.
  abbrev pub Knows : Option ℕ → Context api → ℕ → Phase api → Type 0
  Knows holder c i outside = Unit
  Knows holder c i (wanting k) = Unit
  Knows holder c i (checking k) = holder ≡ some i
  Knows holder c i (building k) = (holder ≡ some i) × (cached k c ≡ none)
  Knows holder c i (storing k _) = (holder ≡ some i) × (cached k c ≡ none)
  Knows holder c i (answering k) =
      (holder ≡ some i) × ((client : Client api k) × (cached k c ≡ some client))
  Knows holder c i (leaving k answer) = (holder ≡ some i) × IsCached k c answer
  Knows holder c i (done k answer) = IsCached k c answer

  -- The call is between its `Lock` and its `Unlock`.
  abbrev pub IsInside : Phase api → Type 0
  IsInside outside = ⊥
  IsInside (wanting _) = ⊥
  IsInside (done _ _) = ⊥
  IsInside _ = Unit

  -- No client that is cached is lost or replaced.
  abbrev pub Kept : Context api → Context api → Type 0
  Kept c c' =
      (k : Kind) (client : Client api k) → cached k c ≡ some client → cached k c' ≡ some client

  IsCached-Kept :
      (k : Kind) (c c' : Context api) (answer : Answer api k)
      → Kept c c'
      → IsCached k c answer
      → IsCached k c' answer
  IsCached-Kept k c c' (err _) kept h = tt
  IsCached-Kept k c c' (ok o) kept (client, is, there) = (client, is, kept k client there)

  -- A step of the holder, or one at which nobody holds the mutex, leaves the others what they know.
  pub Knows-other :
      (holder holder' : Option ℕ) (c c' : Context api) (j : ℕ) (phase : Phase api)
      → holder ≢ some j
      → Kept c c'
      → Knows holder c j phase
      → Knows holder' c' j phase
  Knows-other holder holder' c c' j outside other kept h = tt
  Knows-other holder holder' c c' j (wanting k) other kept h = tt
  Knows-other holder holder' c c' j (checking k) other kept h = absurd (other h)
  Knows-other holder holder' c c' j (building k) other kept h = absurd (other h.0)
  Knows-other holder holder' c c' j (storing k _) other kept h = absurd (other h.0)
  Knows-other holder holder' c c' j (answering k) other kept h = absurd (other h.0)
  Knows-other holder holder' c c' j (leaving k answer) other kept h = absurd (other h.0)
  Knows-other holder holder' c c' j (done k answer) other kept h =
      IsCached-Kept k c c' answer kept h

  pub cache-Kept :
      (k : Kind) (client : Client api k) (c : Context api)
      → cached k c ≡ none
      → Kept c (cache k client c)
  cache-Kept dynamic client c empty dynamic x h = cc (empty, h)
  cache-Kept dynamic client c empty discovery x h = h
  cache-Kept discovery client c empty discovery x h = cc (empty, h)
  cache-Kept discovery client c empty dynamic x h = h

  pub cached-cache :
      (k : Kind) (client : Client api k) (c : Context api)
      → cached k (cache k client c) ≡ some client
  cached-cache dynamic client c = refl
  cached-cache discovery client c = refl

  -- Every call knows what it should, and the holder of the mutex is inside.
  pub record IsGuarded (s : Shared api) : Type 0 where
    pub known : (i : ℕ) → Knows s.holder s.context i (s.call i)
    pub inside : (i : ℕ) → s.holder ≡ some i → IsInside (s.call i)

  pub fresh-IsGuarded : (c : Context api) → IsGuarded (fresh api c)
  fresh-IsGuarded c = record { known = λ i. tt; inside = λ i h. cc }

  pub update_self : (f : ℕ → Phase api) (i : ℕ) (phase : Phase api) → update f i phase i ≡ phase
  update_self f i phase = ground arith

  pub update_ne :
      (f : ℕ → Phase api) (i j : ℕ) (phase : Phase api) → i ≢ j → update f i phase j ≡ f j
  update_ne f i j phase h = ground arith

  -- A predicate of the calls after the call `i` has moved.
  pub after_move :
      (P : ℕ → Phase api → Type 0) (f : ℕ → Phase api) (i : ℕ) (phase : Phase api)
      → P i phase
      → ((j : ℕ) → i ≢ j → P j (f j))
      → (j : ℕ) → P j (update f i phase j)
  after_move P f i phase here others j = elim (ℕ_discrete i j) [
    | yes same ↦
        subst (λ n. P n (update f i phase n)) same (subst (P i) (sym (update_self f i phase)) here)
    | no other ↦ subst (P j) (sym (update_ne f i j phase other)) (others j other)
  ]
