-- ===== src/Tests/Rpc.antt =====
-- api/stream/rpc/rpc.go at concrete schedules.
use k8s_explore.Base.{update, ℕ, true, false, ◌≡◌, refl, [], ◌∷◌, arith}
use k8s_explore.Base.Dict.{Dict}
use k8s_explore.Rpc.{
  Call, ok_reply, idle, decoded, running, finishing, CallDispatcher, new_call_dispatcher,
  register_call_handler, dispatch, register, unregister, receive, dispatches, registers, Reach,
  start, later,
}
use k8s_explore.Rpc.Owners.{IsOwned, entry_has_owner}
use k8s_explore.Rpc.Unique.{FreshId, cancel_reaches_running}
use k8s_explore.Rpc.Clash.{shared_id_lost}

abbrev watch : Call
watch = record { id = "w"; method = "watch" }

abbrev stop : Call
stop = record { id = "w"; method = ".cancel" }

abbrev handlers : Dict ℕ
handlers = ("watch", 7) ∷ []

abbrev first : CallDispatcher ℕ
first = record new_call_dispatcher { handlers = handlers }

handlers-registered : register_call_handler "watch" 7 new_call_dispatcher ≡ first
unfolding register_call_handler
handlers-registered = refl

abbrev received : CallDispatcher ℕ
received = record first { task = update first.task 0 (decoded watch) }

-- Task 0 runs the call "w".
abbrev one_running : CallDispatcher ℕ
one_running = register 0 0 watch (dispatch 0 watch received)

abbrev Any : CallDispatcher ℕ → Call → Type 0
Any d call = Unit {0}

one_running-Reach : Reach Any handlers one_running
unfolding dispatch
one_running-Reach =
    later (later (later start (receive 0 watch refl tt)) (dispatches 0 watch refl))
      (registers 0 0 watch refl)

one_running-Reach_fresh : Reach FreshId handlers one_running
unfolding dispatch
one_running-Reach_fresh =
    later (later (later start (receive 0 watch refl (λ j id e f. cc))) (dispatches 0 watch refl))
      (registers 0 0 watch refl)

-- Task 1 has asked to stop the call.
stop_runs :
    ((dispatch 1 stop one_running).cancelled 0 ≡ true)
    × ((dispatch 1 stop one_running).active_calls ≡ [])
    × ((dispatch 1 stop one_running).replies ≡ (1, ok_reply "w") ∷ [])
unfolding dispatch register
stop_runs = (refl, refl, refl)

cancel_reaches_running_example : (dispatch 1 stop one_running).cancelled 0 ≡ true
unfolding register
cancel_reaches_running_example =
    cancel_reaches_running handlers 1 0 0 watch stop one_running-Reach_fresh refl refl refl

entry_has_owner_example : IsOwned one_running.task "w" 0
unfolding register dispatch
entry_has_owner_example = entry_has_owner Any handlers "w" 0 one_running-Reach refl

-- Two calls with the id "w": task 0 is about to unregister, task 1 runs.
abbrev both : CallDispatcher ℕ
both = record {
  handlers = handlers;
  active_calls = ("w", 1) ∷ [];
  cancelled = λ _. false;
  next = 2;
  task = update (update (λ _. idle) 0 (finishing 0 watch)) 1 (running 1 watch);
  replies = [];
}

shared_id_lost_example :
    let d' = dispatch 2 stop (unregister 0 0 watch both) in
    (d'.task 1 ≡ running 1 watch) × (d'.cancelled 1 ≡ false) × (d'.replies ≡ (2, ok_reply "w") ∷ [])
shared_id_lost_example =
    shared_id_lost both 0 1 2 0 1 watch watch stop refl refl refl refl refl refl (omega arith)
