-- ===== src/Notify.antt =====
-- frp/notify/cancellation_channel.go: a channel that is closed once, with a reason and a callback.
-- `sync.Once` keeps a second caller out until the first has returned, so `Cancel` is one step;
-- `CancelWithReason` writes the reason in a step of its own. The callback, the caller's, is a
-- function on a world `W` outside.
use k8s_explore.Base.{
  Bool, true, false, Option, none, some, List, [], ◌∷◌, ◌≡◌, refl, arith, if◌then◌else◌,
}

-- `CancellationChannel`: whether `once` has run, whether `C` is closed, `Reason` and `callback`.
pub record CancellationChannel (E W : Type 0) : Type 0 where
  pub once : Bool
  pub closed : Bool
  pub reason : Option E
  pub callback : Option (W → W)

-- `close(c)`: `none` is the panic of a second close.
abbrev pub close : Bool → Option Bool
close true = none
close false = some true

-- `if s.callback != nil { s.callback() }`
abbrev pub call_back : {W : Type 0} → Option (W → W) → W → W
call_back none w = w
call_back (some f) w = f w

module _ {E W : Type 0} where
  -- `NewCancellationChannel` and `NewCancellationChannelWithCallback`
  abbrev pub new_channel : Option (W → W) → CancellationChannel E W
  new_channel callback = record { once = false; closed = false; reason = none; callback = callback }

  -- `Cancel`
  unfoldable pub cancel : CancellationChannel E W → W → Option (CancellationChannel E W × W)
  cancel s w = elim s.once [
    | true ↦ some (s, w)
    | false ↦ elim (close s.closed) [
      | none ↦ none
      | some closed ↦ some (record s { once = true; closed = closed }, call_back s.callback w)
    ]
  ]

  -- `s.Reason = reason`
  abbrev pub write_reason : Option E → CancellationChannel E W → CancellationChannel E W
  write_reason reason s = record s { reason = reason }

  -- `CancelWithReason`
  unfoldable pub cancel_with_reason :
      Option E → CancellationChannel E W → W → Option (CancellationChannel E W × W)
  unfolding cancel
  cancel_with_reason reason s w = elim (cancel s w) [
    | none ↦ none
    | some (s', w') ↦ some (write_reason reason s', w')
  ]

  -- `IsCancelled`
  unfoldable pub is_cancelled : CancellationChannel E W → Bool
  is_cancelled s = s.closed

-- The steps of the goroutines that share a channel, in the order in which they happen.
pub data Step (E : Type 0) : Type 0 where
  cancels : Step E
  writes : Option E → Step E

module _ {E : Type 0} where
  -- Whether a step of the list cancels, and the reason that is written last.
  abbrev pub any_cancels : List (Step E) → Bool
  any_cancels [] = false
  any_cancels (cancels ∷ steps) = true
  any_cancels (writes _ ∷ steps) = any_cancels steps

  abbrev pub last_reason : Option E → List (Step E) → Option E
  last_reason reason [] = reason
  last_reason reason (cancels ∷ steps) = last_reason reason steps
  last_reason reason (writes later ∷ steps) = last_reason later steps

module _ {E W : Type 0} where
  unfoldable pub run :
      List (Step E) → CancellationChannel E W → W → Option (CancellationChannel E W × W)
  unfolding cancel
  run [] s w = some (s, w)
  run (cancels ∷ steps) s w = elim (cancel s w) [ none ↦ none | some (s', w') ↦ run steps s' w' ]
  run (writes reason ∷ steps) s w = run steps (write_reason reason s) w

  run-over :
      (steps : List (Step E)) (s : CancellationChannel E W) (w : W)
      → s.once ≡ true
      → run steps s w ≡ some (record s { reason = last_reason s.reason steps }, w)
  unfolding run cancel
  run-over [] s w over = refl
  run-over (cancels ∷ steps) s w over = ground (arith, run-over steps s w over)
  run-over (writes reason ∷ steps) s w over = run-over steps (write_reason reason s) w over

  run-open :
      (steps : List (Step E)) (s : CancellationChannel E W) (w : W)
      → s.once ≡ false
      → s.closed ≡ false
      → run steps s w
        ≡ some (
          record s {
            once = any_cancels steps;
            closed = any_cancels steps;
            reason = last_reason s.reason steps;
          },
          if any_cancels steps then call_back s.callback w else w,
        )
  unfolding run cancel
  run-open [] s w fresh open_ = ground (arith)
  run-open (cancels ∷ steps) s w fresh open_ = rw (fresh, open_) (run-over steps _ _ refl)
  run-open (writes reason ∷ steps) s w fresh open_ =
      run-open steps (write_reason reason s) w fresh open_

  -- Whatever steps goroutines make on a new channel, and in whatever order, none panics: the channel
  -- is closed and its callback has run exactly once if a step cancels, and else neither has happened;
  -- the reason is the one written last.
  pub run_lem :
      (callback : Option (W → W)) (steps : List (Step E)) (w : W)
      → (s : CancellationChannel E W) × (run steps (new_channel callback) w
          ≡ some (s, if any_cancels steps then call_back callback w else w))
        × (is_cancelled s ≡ any_cancels steps)
        × (s.reason ≡ last_reason none steps)
  unfolding is_cancelled
  run_lem callback steps w = (_, run-open steps (new_channel callback) w refl refl, refl, refl)

  -- A call of `CancelWithReason` is the step of `Cancel` and the step that writes the reason.
  pub cancel_with_reason-run :
      (reason : Option E) (s : CancellationChannel E W) (w : W)
      → cancel_with_reason reason s w ≡ run (cancels ∷ writes reason ∷ []) s w
  unfolding cancel_with_reason run cancel
  cancel_with_reason-run reason s w = ground arith
