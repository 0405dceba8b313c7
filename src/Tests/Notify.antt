-- ===== src/Tests/Notify.antt =====
-- frp/notify/cancellation_channel.go at concrete steps.
use k8s_explore.Base.{ℕ, suc, String, true, ◌≡◌, refl, some, none, List, [], ◌∷◌}
use k8s_explore.Notify.{
  CancellationChannel, new_channel, Step, cancels, writes, run, is_cancelled, run_lem,
}

-- Two goroutines cancel, and the reason of the second overwrites the first one's by nil.
abbrev steps : List (Step String)
steps = cancels ∷ cancels ∷ writes (some "gone") ∷ writes none ∷ []

run_twice :
    run steps (new_channel (some suc)) 0
    ≡ some (record { once = true; closed = true; reason = none; callback = some suc }, 1)
unfolding run
run_twice = refl

run_lem_example :
    (s : CancellationChannel String ℕ) × (run steps (new_channel (some suc)) 0 ≡ some (s, 1))
    × (is_cancelled s ≡ true)
    × (s.reason ≡ none)
run_lem_example = run_lem (some suc) steps 0
