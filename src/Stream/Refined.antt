-- ===== src/Stream/Refined.antt =====
-- api/stream/stream.go: the goroutines of a connection and the loop alone.
use k8s_explore.Base.{
  ℕ, zero, suc, Bool, true, false, some, List, [], ◌∷◌, ◌++◌, map, ◌≡◌, refl, sym, ap, ◌∙◌, arith,
  get_elem?, set, append-nil, if◌then◌else◌,
}
use k8s_explore.Base.Dict.{Dict}
use k8s_explore.Stream.{Arrival, frame, cancelled, Dispatched, dispatch_loop}
use k8s_explore.Stream.Dispatching.{stops, untyped, accepted, dispatch_loop_lem}
use k8s_explore.Stream.Connection.{
  Phase, calling, awaiting, breaking, closing, ended, decoding, Task, Connection, new_task,
  after_read, take, put, Step, calls, reads, receives, sees_cancel, skips, dispatches, cancels,
  closes, finds, drops, sends, writes, returns, finishes, Reach, begin, later,
}

module _ {Message : Type 0} where
  -- The loop has broken off.
  abbrev pub is_over : Phase Message → Bool
  is_over breaking = true
  is_over closing = true
  is_over ended = true
  is_over calling = false
  is_over awaiting = false
  is_over (decoding msg) = false

module _ {Message H : Type 0} (undecodable : Message → Bool) (handlers : Dict H) where
  -- The message that the loop has taken and is about to dispatch.
  abbrev pub in_hand : Phase Message → List (Dispatched Message)
  in_hand calling = []
  in_hand awaiting = []
  in_hand breaking = []
  in_hand closing = []
  in_hand ended = []
  in_hand (decoding msg) = if undecodable msg then [] else untyped msg ∷ []

  abbrev pub jobs : List (Task Message) → List (Dispatched Message)
  jobs = map (λ t. t.job)

  record IsTracked (s : Connection Message) : Type 0 where
    started : jobs s.tasks ++ in_hand s.phase ≡ map untyped (accepted undecodable s.taken)
    stopped : stops s.taken ≡ is_over s.phase

  jobs-set :
      (ts : List (Task Message)) (i : ℕ) (t t' : Task Message)
      → get_elem? ts i ≡ some t
      → t'.job ≡ t.job
      → jobs (set ts i t') ≡ jobs ts
  jobs-set [] i t t' at same = refl
  jobs-set (x ∷ xs) zero t t' at same = ground arith
  jobs-set (x ∷ xs) (suc i) t t' at same = ap (λ js. x.job ∷ js) (jobs-set xs i t t' at same)

  jobs-append :
      (ts : List (Task Message)) (t : Task Message) → jobs (ts ++ t ∷ []) ≡ jobs ts ++ t.job ∷ []
  jobs-append [] t = refl
  jobs-append (x ∷ xs) t = ap (λ js. x.job ∷ js) (jobs-append xs t)

  stops-append :
      (log : List (Arrival Message)) (a : Arrival Message)
      → stops log ≡ false
      → stops (log ++ a ∷ []) ≡ is_over (after_read a)
  stops-append [] a h = ground arith
  stops-append (b ∷ log) a h = ground (arith, stops-append log a)

  accepted-append :
      (log : List (Arrival Message)) (a : Arrival Message)
      → stops log ≡ false
      → map untyped (accepted undecodable (log ++ a ∷ []))
        ≡ map untyped (accepted undecodable log) ++ in_hand (after_read a)
  accepted-append [] a h = ground arith
  accepted-append (b ∷ log) a h = ground (arith, accepted-append log a)

  take-IsTracked :
      (a : Arrival Message) (s : Connection Message)
      → s.phase ≡ awaiting
      → IsTracked s
      → stops s.taken ≡ false
  take-IsTracked a s at k = k.stopped ∙ ap is_over at

  module _ (s : Connection Message) (k : IsTracked s) where
    taken-IsTracked :
        (a : Arrival Message) (readers : _) → s.phase ≡ awaiting → IsTracked (take a readers s)
    taken-IsTracked a readers at =
        let open_log = take-IsTracked a s at k in
        record {
          started = sym (
              accepted-append s.taken a open_log
              ∙ ap (λ js. js ++ in_hand (after_read a))
                  (sym k.started
                    ∙ ap (λ p. jobs s.tasks ++ in_hand p) at
                    ∙ append-nil (jobs s.tasks)));
          stopped = stops-append s.taken a open_log;
        }

    put-IsTracked :
        (i : ℕ) (t t' : Task Message)
        → get_elem? s.tasks i ≡ some t
        → t'.job ≡ t.job
        → IsTracked (put i t' s)
    put-IsTracked i t t' at same = record {
      started = ap (λ js. js ++ in_hand s.phase) (jobs-set s.tasks i t t' at same) ∙ k.started;
      stopped = k.stopped;
    }

    -- A change of phase with nothing in hand before and after.
    move-IsTracked :
        (phase : Phase Message)
        → in_hand phase ≡ in_hand s.phase
        → is_over phase ≡ is_over s.phase
        → IsTracked (record s { phase = phase })
    move-IsTracked phase same over = record {
      started = ap (λ js. jobs s.tasks ++ js) same ∙ k.started;
      stopped = k.stopped ∙ sym over;
    }

    dispatched-IsTracked :
        (msg : Message)
        → s.phase ≡ decoding msg
        → undecodable msg ≡ false
        → IsTracked (record s { phase = calling; tasks = s.tasks ++ new_task msg ∷ [] })
    dispatched-IsTracked msg at good = record {
      started =
          append-nil (jobs (s.tasks ++ new_task msg ∷ []))
          ∙ jobs-append s.tasks (new_task msg)
          ∙ ap (λ js. jobs s.tasks ++ js) (sym (ap in_hand at ∙ rw good refl))
          ∙ k.started;
      stopped = k.stopped ∙ ap is_over at;
    }

  Step-IsTracked :
      {s s' : Connection Message} → Step undecodable handlers s s' → IsTracked s → IsTracked s'
  Step-IsTracked {s} (calls at) k =
      let m = move-IsTracked s k awaiting (rw at refl) (rw at refl) in
      record { started = m.started; stopped = m.stopped }
  Step-IsTracked (reads i f at) k = record { started = k.started; stopped = k.stopped }
  Step-IsTracked {s} (receives f older at h) k = taken-IsTracked s k (frame f) (_) at
  Step-IsTracked {s} (sees_cancel at h) k = taken-IsTracked s k cancelled s.readers at
  Step-IsTracked {s} (skips msg at h) k =
      move-IsTracked s k calling (sym (ap in_hand at ∙ rw h refl)) (sym (ap is_over at))
  Step-IsTracked {s} (dispatches msg at h) k = dispatched-IsTracked s k msg at h
  Step-IsTracked {s} (cancels at) k =
      let m = move-IsTracked s k closing (rw at refl) (rw at refl) in
      record { started = m.started; stopped = m.stopped }
  Step-IsTracked {s} (closes at) k =
      let m = move-IsTracked s k ended (rw at refl) (rw at refl) in
      record { started = m.started; stopped = m.stopped }
  Step-IsTracked {s} (finds i t h at w known) k = put-IsTracked s k i t _ at refl
  Step-IsTracked {s} (drops i t at w unknown) k = put-IsTracked s k i t _ at refl
  Step-IsTracked {s} (sends i t msg at w running) k = put-IsTracked s k i t _ at refl
  Step-IsTracked {s} (writes i t msg succeeds at w) k =
      let m = put-IsTracked s k i t _ at refl in record { started = m.started; stopped = m.stopped }
  Step-IsTracked {s} (returns i t at w running) k = put-IsTracked s k i t _ at refl
  Step-IsTracked {s} (finishes i t at w done) k = put-IsTracked s k i t _ at refl

  Reach-IsTracked : {s : Connection Message} → Reach undecodable handlers s → IsTracked s
  Reach-IsTracked begin = record { started = refl; stopped = refl }
  Reach-IsTracked (later r st) = Step-IsTracked st (Reach-IsTracked r)

  -- However the goroutines of a connection take turns, the jobs that have been started, with the one
  -- in hand, are those that the loop alone starts for what it took, in the same order, and the loop has
  -- broken off exactly where the loop alone ends.
  pub connection_refines_loop :
      {s : Connection Message}
      → Reach undecodable handlers s
      → (jobs s.tasks ++ in_hand s.phase, is_over s.phase) ≡ dispatch_loop undecodable s.taken []
  connection_refines_loop {s} r =
      let k = Reach-IsTracked r in
      ground (arith, k.started, k.stopped, dispatch_loop_lem undecodable s.taken)
