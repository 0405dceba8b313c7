-- ===== src/KubeClient/Locked/Agreeing.antt =====
-- kubeclient/pool.go: the calls that share a context share its clients.
use mathlib.Core.Option.{some-injective}
use k8s_explore.Base.{
  ℕ, update, Option, none, some, ok, err, ◌≡◌, ◌≢◌, refl, sym, ◌∙◌, ap, subst, inl, inr, ℕ_discrete,
  Option-cases,
}
use k8s_explore.KubeClient.{Api, Context}
use k8s_explore.KubeClient.Locked.{
  Kind, dynamic, discovery, Client, Phase, outside, wanting, checking, storing, answering, done,
  Shared, fresh, cached, cache, after_check, Step, calls, locks, checks, builds, stores, answers,
  unlocks, Steps, stay, first,
}
use k8s_explore.KubeClient.Locked.Invariant.{
  Knows, IsInside, Kept, Knows-other, cache-Kept, cached-cache, IsGuarded, fresh-IsGuarded,
  update_self, update_ne, after_move,
}

module _ {api : Api} where
  same_context : (c : Context api) → Kept c c
  same_context c k client h = h

  -- A step of the call `i`, with what it leaves.
  module _ (s : Shared api) (i : ℕ) (holder : Option ℕ) (c : Context api) (phase : Phase api)
      (guarded : IsGuarded s) (others : (j : ℕ) → i ≢ j → s.holder ≢ some j)
      (kept : Kept s.context c) (knows : Knows holder c i phase)
      (holds : (j : ℕ) → holder ≡ some j → (i ≡ j) × IsInside phase) where
    abbrev next : Shared api
    next = record { context = c; holder = holder; call = update s.call i phase }

    next-IsGuarded : IsGuarded next
    next-IsGuarded = record {
      known = after_move (Knows holder c) s.call i phase knows (λ j other.
          Knows-other s.holder holder s.context c j (s.call j) (others j other) kept
            (guarded.known j));
      inside = λ j h.
          let (here, inside) = holds j h in
          subst (λ n. IsInside (update s.call i phase n)) here
            (subst IsInside (sym (update_self s.call i phase)) inside);
    }

  -- What a call knows, from the point at which it stands.
  pub Knows-at :
      {s : Shared api} {i : ℕ} {phase : Phase api}
      → IsGuarded s
      → s.call i ≡ phase
      → Knows s.holder s.context i phase
  Knows-at {s} {i} g stands = subst (Knows s.holder s.context i) stands (g.known i)

  -- A step of the holder that keeps the mutex, if it changes the context only by a client that was not
  -- cached.
  held-IsGuarded :
      (s : Shared api) (i : ℕ) (c : Context api) (phase : Phase api)
      → IsGuarded s
      → s.holder ≡ some i
      → Kept s.context c
      → Knows s.holder c i phase
      → IsInside phase
      → IsGuarded (record { context = c; holder = s.holder; call = update s.call i phase })
  held-IsGuarded s i c phase g holds kept knows inside =
      next-IsGuarded s i s.holder c phase g
        (λ j other h. other (some-injective i j (sym holds ∙ h))) kept knows
        (λ j h. (some-injective i j (sym holds ∙ h), inside))

  -- A call that is made, and is still outside of the mutex.
  module _ (s : Shared api) (i : ℕ) (k : Kind) (g : IsGuarded s) (stands : s.call i ≡ outside) where
    calls-inside : (j : ℕ) → s.holder ≡ some j → IsInside (update s.call i (wanting k) j)
    calls-inside j h = elim (ℕ_discrete i j) [
      | yes here ↦ absurd (subst IsInside (ap s.call (sym here) ∙ stands) (g.inside j h))
      | no other ↦ subst IsInside (sym (update_ne s.call i j (wanting k) other)) (g.inside j h)
    ]

  checked :
      (s : Shared api) (i : ℕ) (k : Kind)
      → s.holder ≡ some i
      → Knows s.holder s.context i (after_check k s.context) × IsInside (after_check k s.context)
  checked s i k holds = elim (Option-cases (cached k s.context)) [
    | inl empty ↦ rw (empty, after_check) ((holds, empty), tt)
    | inr (client, there) ↦ rw (there, after_check) ((holds, (client, there)), tt)
  ]

  Step-IsGuarded : {s t : Shared api} → Step s t → IsGuarded s → IsGuarded t
  Step-IsGuarded {s} (calls i k stands) g = record {
    known = after_move (Knows s.holder s.context) s.call i (wanting k) tt (λ j _. g.known j);
    inside = calls-inside s i k g stands;
  }
  Step-IsGuarded {s} (locks i k stands free) g =
      next-IsGuarded s i (some i) s.context (checking k) g (λ j other h. cc)
        (same_context s.context) refl (λ j h. (some-injective i j h, tt))
  Step-IsGuarded {s} (checks i k stands) g =
      let holds = Knows-at g stands in
      let (knows, inside) = checked s i k holds in
      held-IsGuarded s i s.context (after_check k s.context) g holds (same_context s.context) knows
        inside
  Step-IsGuarded {s} (builds i k (ok client) stands) g =
      let (holds, empty) = Knows-at g stands in
      held-IsGuarded s i s.context (storing k client) g holds (same_context s.context)
        (holds, empty) tt
  Step-IsGuarded {s} (builds i k (err e) stands) g =
      let (holds, empty) = Knows-at g stands in
      held-IsGuarded s i s.context _ g holds (same_context s.context) (holds, tt) tt
  Step-IsGuarded {s} (stores i k client stands) g =
      let (holds, empty) = Knows-at g stands in
      held-IsGuarded s i (cache k client s.context) (answering k) g holds
        (cache-Kept k client s.context empty) (holds, (client, cached-cache k client s.context)) tt
  Step-IsGuarded {s} (answers i k stands) g =
      let (holds, (client, there)) = Knows-at g stands in
      held-IsGuarded s i s.context _ g holds (same_context s.context)
        (holds, (client, there, there)) tt
  Step-IsGuarded {s} (unlocks i k answer stands) g =
      let (holds, fits) = Knows-at g stands in
      next-IsGuarded s i none s.context (done k answer) g
        (λ j other h. other (some-injective i j (sym holds ∙ h))) (same_context s.context) fits
        (λ j h. cc)

  pub Steps-IsGuarded : {s t : Shared api} → Steps s t → IsGuarded s → IsGuarded t
  Steps-IsGuarded stay g = g
  Steps-IsGuarded (first step steps) g = Steps-IsGuarded steps (Step-IsGuarded step g)

  -- What of a context no call of its methods changes.
  abbrev pub without_clients : Context api → Context api
  without_clients c = record c { discovery_client = none; dynamic_client = none }

  without_clients-cache :
      (k : Kind) (client : Client api k) (c : Context api)
      → without_clients (cache k client c) ≡ without_clients c
  without_clients-cache dynamic client c = refl
  without_clients-cache discovery client c = refl

  Step-Kept :
      {s t : Shared api}
      → Step s t
      → IsGuarded s
      → Kept s.context t.context × (without_clients t.context ≡ without_clients s.context)
  Step-Kept {s} (calls i k _) g = (same_context s.context, refl)
  Step-Kept {s} (locks i k _ _) g = (same_context s.context, refl)
  Step-Kept {s} (checks i k _) g = (same_context s.context, refl)
  Step-Kept {s} (builds i k _ _) g = (same_context s.context, refl)
  Step-Kept {s} (stores i k client stands) g =
      let (holds, empty) = Knows-at g stands in
      (cache-Kept k client s.context empty, without_clients-cache k client s.context)
  Step-Kept {s} (answers i k _) g = (same_context s.context, refl)
  Step-Kept {s} (unlocks i k _ _) g = (same_context s.context, refl)

  Steps-Kept :
      {s t : Shared api}
      → Steps s t
      → IsGuarded s
      → Kept s.context t.context × (without_clients t.context ≡ without_clients s.context)
  Steps-Kept {s} stay g = (same_context s.context, refl)
  Steps-Kept (first step steps) g =
      let (before, same) = Step-Kept step g in
      let (after, same') = Steps-Kept steps (Step-IsGuarded step g) in
      (λ k client h. after k client (before k client h), same' ∙ same)

  -- However the calls of `DynamicClient` and `DiscoveryClient` on one context interleave, and whatever
  -- their constructions return: any two calls of one method that return without an error return the
  -- same client, which is not nil and is the one that the context has cached; a client that was cached
  -- before is never replaced, and the rest of the context stays as it was.
  pub clients_shared :
      (c : Context api) (s : Shared api) (k : Kind) (i j : ℕ) (o o' : Option (Client api k))
      → Steps (fresh api c) s
      → s.call i ≡ done k (ok o)
      → s.call j ≡ done k (ok o')
      → (client : Client api k) × (o ≡ some client)
        × (o' ≡ some client)
        × (cached k s.context ≡ some client)
        × Kept c s.context
        × (without_clients s.context ≡ without_clients c)
  clients_shared c s k i j o o' steps here there =
      let g = Steps-IsGuarded steps (fresh-IsGuarded c) in
      let (client, is, stored) = Knows-at g here in
      let (client', is', stored') = Knows-at g there in
      let (kept, rest) = Steps-Kept steps (fresh-IsGuarded c) in
      let one = some-injective client' client (sym stored' ∙ stored) in
      (client, is, is' ∙ ap some one, stored, kept, rest)
