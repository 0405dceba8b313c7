-- ===== src/KubeClient/Locked/Finishing.antt =====
-- kubeclient/pool.go: a call of a context's methods can always come to its end, and does there what
-- the method does alone.
use k8s_explore.Base.{
  ℕ, update, Option, none, some, wrapped, foreign, ok, err, ◌≡◌, ◌≢◌, refl, sym, ◌∙◌, ap, subst,
  inl, inr, Option-cases, Result-cases,
}
use k8s_explore.KubeClient.{Api, Context}
use k8s_explore.KubeClient.Locked.{
  Kind, failure, Client, Answer, Phase, outside, wanting, checking, building, storing, answering,
  leaving, done, Shared, fresh, cached, cache, after_check, at, Step, locks, checks, builds, stores,
  answers, unlocks, Steps, stay, first,
}
use k8s_explore.KubeClient.Locked.Invariant.{
  IsInside, cached-cache, IsGuarded, fresh-IsGuarded, update_self, update_ne,
}
use k8s_explore.KubeClient.Locked.Agreeing.{Steps-IsGuarded, Knows-at}
use k8s_explore.KubeClient.Locked.Alone.{alone, construct, alone-cached, alone-built, alone-failed}

module _ {api : Api} where
  -- From `s` the call `i` can end with this answer and leave this context, while the others stand.
  pub record Ends (s : Shared api) (i : ℕ) (k : Kind) (r : Answer api k × Context api)
      : Type 0 where
    pub final : Shared api
    pub steps : Steps s final
    pub answered : final.call i ≡ done k r.0
    pub left : final.context ≡ r.1
    pub free : final.holder ≡ none
    pub others : (j : ℕ) → i ≢ j → final.call j ≡ s.call j

  -- The call `i` has moved on.
  abbrev moved : ℕ → Option ℕ → Context api → Phase api → Shared api → Shared api
  moved i h c phase s = record { context = c; holder = h; call = update s.call i phase }

  -- A step of `i` before such an end.
  before :
      {s : Shared api} {i : ℕ} {k : Kind} {r : Answer api k × Context api} (h : Option ℕ)
      (c : Context api) (phase : Phase api)
      → Step s (moved i h c phase s)
      → Ends (moved i h c phase s) i k r
      → Ends s i k r
  before {s} {i} {k} {r} h c phase step e = record {
    final = e.final;
    steps = first step e.steps;
    answered = e.answered;
    left = e.left;
    free = e.free;
    others = λ j other. e.others j other ∙ update_ne s.call i j phase other;
  }

  from_leaving :
      (s : Shared api) (i : ℕ) (k : Kind) (answer : Answer api k)
      → s.call i ≡ leaving k answer
      → Ends s i k (answer, s.context)
  from_leaving s i k answer stands = record {
    final = record s { holder = none; call = update s.call i (done k answer) };
    steps = first (unlocks i k answer stands) stay;
    answered = update_self s.call i (done k answer);
    left = refl;
    free = refl;
    others = λ j other. update_ne s.call i j (done k answer) other;
  }

  from_answering :
      (s : Shared api) (i : ℕ) (k : Kind)
      → s.call i ≡ answering k
      → Ends s i k (ok (cached k s.context), s.context)
  from_answering s i k stands =
      let answer : Answer api k = ok (cached k s.context) in
      before s.holder s.context (leaving k answer) (answers i k stands) (
        from_leaving (at i (leaving k answer) s) i k answer
          (update_self s.call i (leaving k answer)))

  from_storing :
      (s : Shared api) (i : ℕ) (k : Kind) (client : Client api k)
      → s.call i ≡ storing k client
      → Ends s i k (ok (some client), cache k client s.context)
  from_storing s i k client stands =
      let c = cache k client s.context in
      let now : Shared api = moved i s.holder c (answering k) s in
      before s.holder c (answering k) (stores i k client stands) (
        subst (λ o. Ends now i k (ok o, c)) (cached-cache k client s.context)
          (from_answering now i k (update_self s.call i (answering k))))

  from_building :
      (s : Shared api) (i : ℕ) (k : Kind)
      → s.call i ≡ building k
      → cached k s.context ≡ none
      → Ends s i k (alone k s.context)
  from_building s i k stands empty = elim (Result-cases (construct k s.context)) [
    | inl (client, made) ↦ subst (Ends s i k) (sym (alone-built k s.context client empty made)) (
        before s.holder s.context (storing k client) (builds i k (ok client) stands) (
          from_storing (at i (storing k client) s) i k client
            (update_self s.call i (storing k client))))
    | inr (e, failed) ↦
        let answer : Answer api k = err (wrapped (failure k) (foreign e)) in
        subst (Ends s i k) (sym (alone-failed k s.context e empty failed)) (
          before s.holder s.context (leaving k answer) (builds i k (err e) stands) (
            from_leaving (at i (leaving k answer) s) i k answer
              (update_self s.call i (leaving k answer))))
  ]

  from_checked :
      (s : Shared api) (i : ℕ) (k : Kind)
      → s.call i ≡ after_check k s.context
      → Ends s i k (alone k s.context)
  from_checked s i k stands = elim (Option-cases (cached k s.context)) [
    | inl empty ↦ from_building s i k (rw (empty, after_check) at stands) empty
    | inr (client, there) ↦
        subst (Ends s i k)
          (ap (λ o. (ok o, s.context)) there ∙ sym (alone-cached k s.context client there))
          (from_answering s i k (rw (there, after_check) at stands))
  ]

  from_checking :
      (s : Shared api) (i : ℕ) (k : Kind) → s.call i ≡ checking k → Ends s i k (alone k s.context)
  from_checking s i k stands =
      let phase = after_check k s.context in
      before s.holder s.context phase (checks i k stands)
        (from_checked (at i phase s) i k (update_self s.call i phase))

  from_wanting :
      (s : Shared api) (i : ℕ) (k : Kind)
      → s.call i ≡ wanting k
      → s.holder ≡ none
      → Ends s i k (alone k s.context)
  from_wanting s i k stands free = before (some i) s.context (checking k) (locks i k stands free) (
      from_checking (moved i (some i) s.context (checking k) s) i k
        (update_self s.call i (checking k)))

  -- A call that is inside can end.
  from_inside :
      (s : Shared api) (i : ℕ) (phase : Phase api)
      → IsGuarded s
      → s.call i ≡ phase
      → IsInside phase
      → (k : Kind) × (r : Answer api k × Context api) × Ends s i k r
  from_inside s i (checking k) g stands inside = (k, _, from_checking s i k stands)
  from_inside s i (building k) g stands inside =
      (k, _, from_building s i k stands (Knows-at g stands).1)
  from_inside s i (storing k client) g stands inside = (k, _, from_storing s i k client stands)
  from_inside s i (answering k) g stands inside = (k, _, from_answering s i k stands)
  from_inside s i (leaving k answer) g stands inside = (k, _, from_leaving s i k answer stands)
  from_inside s i outside g stands inside = absurd inside
  from_inside s i (wanting k) g stands inside = absurd inside
  from_inside s i (done k answer) g stands inside = absurd inside

  -- A call that waits for the mutex can always get it and return, whatever the other calls have done:
  -- first the call that holds the mutex, if there is one, returns, and then this one, with the answer
  -- that the method gives on its own for the context as it is by then, and which it leaves as the method
  -- leaves it.
  pub call_returns :
      (c : Context api) (s : Shared api) (i : ℕ) (k : Kind)
      → Steps (fresh api c) s
      → s.call i ≡ wanting k
      → (t : Shared api) × Steps s t × (t.holder ≡ none) × Ends t i k (alone k t.context)
  call_returns c s i k steps waits =
      let g = Steps-IsGuarded steps (fresh-IsGuarded c) in
      elim (Option-cases s.holder) [
        | inl free ↦ (s, stay, free, from_wanting s i k waits free)
        | inr (j, holds) ↦
            let inside = g.inside j holds in
            let (k', r, e) = from_inside s j (s.call j) g refl inside in
            let still : e.final.call i ≡ wanting k =
              e.others i (λ same. subst IsInside (ap s.call same ∙ waits) inside) ∙ waits in
            (e.final, e.steps, e.free, from_wanting e.final i k still e.free)
      ]
