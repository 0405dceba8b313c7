-- ===== src/KubeClient/Locked/Serial.antt =====
-- kubeclient/pool.go: calls that interleave do what the same calls do one after another.
use k8s_explore.Base.{
  ℕ, update, Option, none, some, List, [], ◌∷◌, Result, ok, ◌++◌, ◌≡◌, ◌≢◌, sym, ◌∙◌, ap, ◌⊎◌, inr,
  All, All-map,
}
use k8s_explore.KubeClient.{Api, Context}
use k8s_explore.KubeClient.Locked.{
  Kind, Client, Answer, Phase, outside, wanting, checking, building, storing, answering, leaving,
  done, Shared, cached, Step, builds,
}
use k8s_explore.KubeClient.Locked.Invariant.{update_ne}
use k8s_explore.KubeClient.Locked.Alone.{run_with}

-- No call stands twice in the log.
abbrev pub Once : List (ℕ × Kind) → Type 0
Once [] = Unit
Once (e ∷ log) = All (λ x. x.0 ≢ e.0) log × Once log

-- What the constructor returns in each of the calls, if that call comes to it.
abbrev pub Given : Api → Type 0
Given api = ℕ → (k : Kind) → Context api → Result api.ApiError (Client api k)

module _ {api : Api} (give : Given api) where
  -- A step at which the constructor, if it is called, returns what the call is given.
  abbrev pub IsExact : {s t : Shared api} → Step s t → Type 0
  IsExact {s} (builds i k built _) = built ≡ give i k s.context
  IsExact _ = Unit

  pub data ExactSteps : Shared api → Shared api → Type 0 where
    begin : {s : Shared api} → ExactSteps s s
    later :
        {s t u : Shared api} → ExactSteps s t → (step : Step t u) → IsExact step → ExactSteps s u

  -- The states that a run passes, the first and the last too.
  abbrev pub Passes : {s t : Shared api} → ExactSteps s t → Shared api → Type 0
  Passes {s} begin x = x ≡ s
  Passes {t = u} (later steps step exact) x = (x ≡ u) ⊎ Passes steps x

  -- The method of a call, on its own.
  abbrev pub lone : ℕ → (k : Kind) → Context api → Answer api k × Context api
  lone i k c = run_with k (give i k c) c

  -- The context after the calls of the log, the last of them first, one after another.
  abbrev pub replay : Context api → List (ℕ × Kind) → Context api
  replay c [] = c
  replay c (e ∷ log) = (lone e.0 e.1 (replay c log)).1

  -- The call stands in the log, and its answer is the one that it gets there.
  abbrev pub Answered : Context api → List (ℕ × Kind) → ℕ → (k : Kind) → Answer api k → Type 0
  Answered c [] i k answer = ⊥
  Answered c (e ∷ log) i k answer =
      ((e ≡ (i, k)) × (answer ≡ (lone i k (replay c log)).0)) ⊎ Answered c log i k answer

  -- A call that has returned is in the log.
  abbrev pub Served : Context api → List (ℕ × Kind) → ℕ → Phase api → Type 0
  Served c log i (done k answer) = Answered c log i k answer
  Served c log i _ = Unit

  -- What a call that is inside has done so far, from the context `m` that it found.
  abbrev pub Pending : Option ℕ → Context api → Context api → ℕ → Phase api → Type 0
  Pending holder m c i (checking k) = (holder ≡ some i) × (c ≡ m)
  Pending holder m c i (building k) = (holder ≡ some i) × (c ≡ m) × (cached k m ≡ none)
  Pending holder m c i (storing k client) =
      (holder ≡ some i) × (c ≡ m) × (cached k m ≡ none) × (give i k m ≡ ok client)
  Pending holder m c i (answering k) = (holder ≡ some i) × (lone i k m ≡ (ok (cached k c), c))
  Pending holder m c i (leaving k answer) = (holder ≡ some i) × (lone i k m ≡ (answer, c))
  Pending holder m c i _ = Unit

  -- The call of an entry has returned.
  abbrev pub IsReturned : Shared api → ℕ × Kind → Type 0
  IsReturned s e = (answer : Answer api e.1) × (s.call e.0 ≡ done e.1 answer)

  -- The calls that have returned at the state are the first of the order.
  abbrev pub ComeFirst : Context api → List (ℕ × Kind) → Shared api → Type 0
  ComeFirst c log s =
      (after : List (ℕ × Kind)) × (front : List (ℕ × Kind)) × (log ≡ after ++ front)
      × ((i : ℕ) → Served c front i (s.call i))
      × All (IsReturned s) front

  pub record IsSerial (c : Context api) (s : Shared api) (log : List (ℕ × Kind)) : Type 0 where
    pub served : (i : ℕ) → Served c log i (s.call i)
    pub returned : All (IsReturned s) log
    pub once : Once log
    pub pending : (i : ℕ) → Pending s.holder (replay c log) s.context i (s.call i)
    pub free : s.holder ≡ none → s.context ≡ replay c log

  pub Served-later :
      (c : Context api) (e : ℕ × Kind) (log : List (ℕ × Kind)) (i : ℕ) (phase : Phase api)
      → Served c log i phase
      → Served c (e ∷ log) i phase
  Served-later c e log i (done k answer) h = inr h
  Served-later c e log i outside h = tt
  Served-later c e log i (wanting _) h = tt
  Served-later c e log i (checking _) h = tt
  Served-later c e log i (building _) h = tt
  Served-later c e log i (storing _ _) h = tt
  Served-later c e log i (answering _) h = tt
  Served-later c e log i (leaving _ _) h = tt

  pub Pending-other :
      (holder holder' : Option ℕ) (m m' c c' : Context api) (j : ℕ) (phase : Phase api)
      → holder ≢ some j
      → Pending holder m c j phase
      → Pending holder' m' c' j phase
  Pending-other holder holder' m m' c c' j outside other h = tt
  Pending-other holder holder' m m' c c' j (wanting k) other h = tt
  Pending-other holder holder' m m' c c' j (done k answer) other h = tt
  Pending-other holder holder' m m' c c' j (checking k) other h = absurd (other h.0)
  Pending-other holder holder' m m' c c' j (building k) other h = absurd (other h.0)
  Pending-other holder holder' m m' c c' j (storing k _) other h = absurd (other h.0)
  Pending-other holder holder' m m' c c' j (answering k) other h = absurd (other h.0)
  Pending-other holder holder' m m' c c' j (leaving k answer) other h = absurd (other h.0)

  -- A call that has not returned is not in the log, and its move leaves those that have.
  module _ (s : Shared api) (i : ℕ)
      (under_way : (k : Kind) (a : Answer api k) → s.call i ≢ done k a) where
    pub not_logged : (log : List (ℕ × Kind)) → All (IsReturned s) log → All (λ x. x.0 ≢ i) log
    not_logged log returned =
        All-map (IsReturned s) (λ x. x.0 ≢ i) log
          (λ x (answer, has) same. under_way x.1 answer (ap s.call (sym same) ∙ has)) returned

    pub All-IsReturned :
        (holder : Option ℕ) (c : Context api) (phase : Phase api) (log : List (ℕ × Kind))
        → All (IsReturned s) log
        → All
            (IsReturned (record { context = c; holder = holder; call = update s.call i phase }))
            log
    All-IsReturned holder c phase log returned =
        All-map (IsReturned s) _ log
          (λ x (answer, has). (
            answer,
            update_ne s.call i x.0 phase (λ same. under_way x.1 answer (ap s.call same ∙ has))
                ∙ has,
          ))
          returned
