-- ===== src/KubeClient/Locked/Linear.antt =====
-- kubeclient/pool.go: the calls that share a context are linearizable.
use mathlib.Core.Option.{some-injective}
use k8s_explore.Base.{
  ℕ, update, Option, none, some, List, [], ◌∷◌, wrapped, foreign, Result, ok, err, ◌≡◌, ◌≢◌, refl,
  sym, ◌∙◌, ap, subst, inl, inr, Option-cases, All, ◌++◌, append_assoc,
}
use k8s_explore.KubeClient.{Api, Context}
use k8s_explore.KubeClient.Locked.{
  Kind, failure, Client, Answer, Phase, wanting, checking, building, storing, answering, leaving,
  done, Shared, fresh, cached, cache, after_check, after_build, at, Step, calls, locks, checks,
  builds, stores, answers, unlocks,
}
use k8s_explore.KubeClient.Locked.Invariant.{cached-cache, update_self, after_move}
use k8s_explore.KubeClient.Locked.Alone.{run_with-cached, run_with-built, run_with-failed}
use k8s_explore.KubeClient.Locked.Serial.{
  Given, Passes, ComeFirst, lone, IsExact, ExactSteps, begin, later, replay, Served, IsReturned,
  Once, Pending, IsSerial, Served-later, Pending-other, not_logged, All-IsReturned,
}

module _ {api : Api} (give : Given api) where
  module _ (c : Context api) (s : Shared api) (log : List (ℕ × Kind))
      (serial : IsSerial give c s log) (i : ℕ) where
    Pending-at :
        {phase : Phase api}
        → s.call i ≡ phase
        → Pending give s.holder (replay give c log) s.context i phase
    Pending-at stands =
        subst (Pending give s.holder (replay give c log) s.context i) stands (serial.pending i)

    -- The others, when a call moves on that holds the mutex.
    others_wait :
        (holder : Option ℕ) (m' c' : Context api)
        → s.holder ≡ some i
        → (j : ℕ) → i ≢ j
        → Pending give holder m' c' j (s.call j)
    others_wait holder m' c' holds j other =
        Pending-other give s.holder holder (replay give c log) m' s.context c' j (s.call j)
          (λ h. other (some-injective i j (sym holds ∙ h))) (serial.pending j)

    -- A move by which no call returns.
    move-IsSerial :
        (holder : Option ℕ) (c' : Context api) (phase : Phase api)
        → Served give c log i phase
        → Pending give holder (replay give c log) c' i phase
        → ((k : Kind) (a : Answer api k) → s.call i ≢ done k a)
        → ((j : ℕ) → i ≢ j → Pending give holder (replay give c log) c' j (s.call j))
        → (holder ≡ none → c' ≡ replay give c log)
        → IsSerial give c
            (record { context = c'; holder = holder; call = update s.call i phase })
            log
    move-IsSerial holder c' phase served pending under_way others free = record {
      served = after_move (Served give c log) s.call i phase served (λ j other. serial.served j);
      returned = All-IsReturned give s i under_way holder c' phase log serial.returned;
      once = serial.once;
      pending =
          after_move (Pending give holder (replay give c log) c') s.call i phase pending others;
      free = free;
    }

    -- A move of the call that holds the mutex, and keeps it.
    held-IsSerial :
        (c' : Context api) (phase : Phase api)
        → s.holder ≡ some i
        → Served give c log i phase
        → Pending give s.holder (replay give c log) c' i phase
        → ((k : Kind) (a : Answer api k) → s.call i ≢ done k a)
        → IsSerial give c
            (record { context = c'; holder = s.holder; call = update s.call i phase })
            log
    held-IsSerial c' phase holds served pending under_way =
        move-IsSerial s.holder c' phase served pending under_way
          (others_wait s.holder (replay give c log) c' holds) (λ h. cc)

    checks-IsSerial :
        (k : Kind) → s.call i ≡ checking k → IsSerial give c (at i (after_check k s.context) s) log
    checks-IsSerial k stands =
        let (holds, same) = Pending-at stands in
        elim (Option-cases (cached k s.context)) [
          | inl empty ↦
              rw (empty, after_check)
                (held-IsSerial s.context (building k) holds tt
                  (holds, same, ap (cached k) (sym same) ∙ empty) (λ k' a h. cc))
          | inr (client, there) ↦
              rw (there, after_check)
                (held-IsSerial s.context (answering k) holds tt
                  (
                    holds,
                    ap (lone give i k) (sym same)
                        ∙ run_with-cached k (give i k s.context) s.context client there
                        ∙ ap (λ o. (ok o, s.context)) (sym there),
                  )
                  (λ k' a h. cc))
        ]

    builds-IsSerial :
        (k : Kind) (built : Result api.ApiError (Client api k))
        → s.call i ≡ building k
        → built ≡ give i k s.context
        → IsSerial give c (at i (after_build k built) s) log
    builds-IsSerial k (ok client) stands exact =
        let (holds, same, empty) = Pending-at stands in
        held-IsSerial s.context (storing k client) holds tt
          (holds, same, empty, ap (give i k) (sym same) ∙ sym exact) (λ k' a h. cc)
    builds-IsSerial k (err e) stands exact =
        let (holds, same, empty) = Pending-at stands in
        held-IsSerial s.context _ holds tt
          (
            holds,
            run_with-failed k (give i k (replay give c log)) (replay give c log) e empty
                  (ap (give i k) (sym same) ∙ sym exact)
                ∙ ap (λ m. (err (wrapped (failure k) (foreign e)), m)) (sym same),
          )
          (λ k' a h. cc)

    stores-IsSerial :
        (k : Kind) (client : Client api k)
        → s.call i ≡ storing k client
        → IsSerial give c
            (record {
              context = cache k client s.context;
              holder = s.holder;
              call = update s.call i (answering k);
            })
            log
    stores-IsSerial k client stands =
        let (holds, same, empty, made) = Pending-at stands in
        held-IsSerial (cache k client s.context) (answering k) holds tt
          (
            holds,
            run_with-built k (give i k (replay give c log)) (replay give c log) client empty made
                ∙ ap (λ m. (ok (some client), cache k client m)) (sym same)
                ∙ ap (λ o. (ok o, cache k client s.context))
                    (sym (cached-cache k client s.context)),
          )
          (λ k' a h. cc)

    unlocks-IsSerial :
        (k : Kind) (answer : Answer api k)
        → s.call i ≡ leaving k answer
        → IsSerial give c
            (record { context = s.context; holder = none; call = update s.call i (done k answer) })
            ((i, k) ∷ log)
    unlocks-IsSerial k answer stands =
        let (holds, ends) = Pending-at stands in
        record {
          served =
              after_move (Served give c ((i, k) ∷ log)) s.call i (done k answer)
                (inl (refl, sym (ap (λ r. r.0) ends)))
                (λ j other. Served-later give c (i, k) log j (s.call j) (serial.served j));
          returned = (
            (answer, update_self s.call i (done k answer)),
            All-IsReturned give s i (λ k' a h. cc) none s.context (done k answer) log
                serial.returned,
          );
          once = (not_logged give s i (λ k' a h. cc) log serial.returned, serial.once);
          pending =
              after_move (Pending give none (replay give c ((i, k) ∷ log)) s.context) s.call i
                (done k answer) tt
                (others_wait none (replay give c ((i, k) ∷ log)) s.context holds);
          free = λ h. sym (ap (λ r. r.1) ends);
        }

  -- A step adds the call that returns to the log.
  Step-IsSerial :
      (c : Context api) {s t : Shared api} (log : List (ℕ × Kind)) (step : Step s t)
      → IsExact give step
      → IsSerial give c s log
      → (more : List (ℕ × Kind)) × IsSerial give c t (more ++ log)
  Step-IsSerial c {s} log (calls i k stands) exact serial = (
    [],
    move-IsSerial c s log serial i s.holder s.context (wanting k) tt tt (λ k' a h. cc)
        (λ j other. serial.pending j) serial.free,
  )
  Step-IsSerial c {s} log (locks i k stands free) exact serial = (
    [],
    move-IsSerial c s log serial i (some i) s.context (checking k) tt (refl, serial.free free)
        (λ k' a h. cc)
        (λ j other.
          Pending-other give s.holder (some i) (replay give c log) (replay give c log) s.context
            s.context j (s.call j) (λ h. cc) (serial.pending j))
        (λ h. cc),
  )
  Step-IsSerial c {s} log (checks i k stands) exact serial =
      ([], checks-IsSerial c s log serial i k stands)
  Step-IsSerial c {s} log (builds i k built stands) exact serial =
      ([], builds-IsSerial c s log serial i k built stands exact)
  Step-IsSerial c {s} log (stores i k client stands) exact serial =
      ([], stores-IsSerial c s log serial i k client stands)
  Step-IsSerial c {s} log (answers i k stands) exact serial =
      let (holds, ends) = Pending-at c s log serial i stands in
      ([], held-IsSerial c s log serial i s.context _ holds tt (holds, ends) (λ k' a h. cc))
  Step-IsSerial c {s} log (unlocks i k answer stands) exact serial =
      ((i, k) ∷ [], unlocks-IsSerial c s log serial i k answer stands)

  -- The calls that had returned at a state of the run stay the first.
  ComeFirst-later :
      (c : Context api) (s : Shared api) (more log : List (ℕ × Kind))
      → ComeFirst give c log s
      → ComeFirst give c (more ++ log) s
  ComeFirst-later c s more log (after, front, split, served, returned) = (
    more ++ after,
    front,
    ap (λ l. more ++ l) split ∙ sym (append_assoc more after front),
    served,
    returned,
  )

  IsSerial-ComeFirst :
      (c : Context api) (s : Shared api) (log : List (ℕ × Kind))
      → IsSerial give c s log
      → ComeFirst give c log s
  IsSerial-ComeFirst c s log serial = ([], log, refl, serial.served, serial.returned)

  steps-IsSerial :
      (c : Context api) {s : Shared api} (steps : ExactSteps give (fresh api c) s)
      → (log : List (ℕ × Kind)) × IsSerial give c s log
        × ((x : Shared api) → Passes give steps x → ComeFirst give c log x)
  steps-IsSerial c begin =
      let serial : IsSerial give c (fresh api c) [] = record {
        served = λ i. tt;
        returned = tt;
        once = tt;
        pending = λ i. tt;
        free = λ h. refl;
      } in
      (
        [],
        serial,
        λ x same.
            subst (ComeFirst give c []) (sym same) (IsSerial-ComeFirst c (fresh api c) [] serial),
      )
  steps-IsSerial c (later {u = u} steps step exact) =
      let (log, before, passed) = steps-IsSerial c steps in
      let (more, serial) = Step-IsSerial c log step exact before in
      (
        more ++ log,
        serial,
        λ x passes. elim passes [
          | inl same ↦
              subst (ComeFirst give c (more ++ log)) (sym same)
                (IsSerial-ComeFirst c u (more ++ log) serial)
          | inr earlier ↦ ComeFirst-later c x more log (passed x earlier)
        ],
      )

  -- Any interleaving of calls of `DynamicClient` and `DiscoveryClient` on one context, whose
  -- constructors may return something else in each call, is linearizable: where no call holds the mutex
  -- at its end, there is one order of the calls that have returned, each of them once and no others, in
  -- which each, run on its own after the ones before it, gives the answer that it has given, and all of
  -- them leave the context as it is. The order is that of real time: at each state that the run has
  -- passed, the calls that had returned are the first of it, before all that returned or began later.
  pub linearizable :
      (c : Context api) (s : Shared api) (steps : ExactSteps give (fresh api c) s)
      → s.holder ≡ none
      → (log : List (ℕ × Kind)) × (s.context ≡ replay give c log)
        × ((i : ℕ) → Served give c log i (s.call i))
        × All (IsReturned give s) log
        × Once log
        × ((x : Shared api) → Passes give steps x → ComeFirst give c log x)
  linearizable c s steps unheld =
      let (log, serial, passed) = steps-IsSerial c steps in
      (log, serial.free unheld, serial.served, serial.returned, serial.once, passed)
