-- ===== src/Rpc/Unique.antt =====
-- api/stream/rpc/rpc.go: clients that do not reuse the id of a call in flight can cancel every call
-- that runs.
use k8s_explore.Base.{
  update, ℕ, String, str_eq, eq_iff, true, some, ◌≡◌, ◌≢◌, refl, sym, ◌∙◌, arith, inl, inr, ◌⊎◌,
  Option-cases, Bool-cases, ℕ_discrete,
}
use k8s_explore.Base.Dict.{
  Dict, lookup, lookup-insert_self, lookup-insert_ne, lookup-delete_ne, String-cases,
}
use k8s_explore.Rpc.{
  Call, Task, decoded, registering, running, finishing, done, CallDispatcher, call_method_cancel,
  cancel_call, dispatch, register, unregister, Step, receive, dispatches, registers, emits, returns,
  unregisters, Reach, start, later,
}
use k8s_explore.Rpc.Owners.{cancel_call-task}
use k8s_explore.Rpc.Cancel.{Cancelled, dispatch-Cancelled, dispatch_cancel_missing}
use k8s_explore.Rpc.Ids.{claims, IsUnique, IsUnique-update, IsUnique-new, running-update}

module _ {H : Type 0} where
  -- The client sends no call with the id of another call in flight.
  abbrev pub FreshId : CallDispatcher H → Call → Type 0
  FreshId d call =
      (j : ℕ) (id : String) → claims (decoded call) ≡ some id → claims (d.task j) ≢ some id

  -- A running call is behind its id, or its context has been cancelled.
  abbrev pub IsStoppable : CallDispatcher H → Type 0
  IsStoppable d =
      (j ctx : ℕ) (call : Call)
      → d.task j ≡ running ctx call
      → (lookup call.id d.active_calls ≡ some ctx) ⊎ (d.cancelled ctx ≡ true)

  module _ (d : CallDispatcher H) (u : IsUnique d.task) (s : IsStoppable d) (i : ℕ)
      (call : Call) where
    found-IsStoppable :
        (ctx : ℕ) (d' : CallDispatcher H)
        → lookup call.id d.active_calls ≡ some ctx
        → Cancelled i call.id ctx d d'
        → IsStoppable d'
    found-IsStoppable ctx d' found done_so j c k at = elim (ℕ_discrete j i) [
      | yes same ↦ cc (done_so.ended, same, at)
      | no n ↦ elim (ℕ_discrete c ctx) [
        | yes e ↦ inr (rw e done_so.stopped)
        | no ne ↦ elim (s j c k (sym (done_so.tasks j n) ∙ at)) [
          | inr was ↦ inr (done_so.others c ne ∙ was)
          | inl listed ↦ elim (String-cases k.id call.id) [
            | inl same ↦ absurd (ne (ground arith))
            | inr other ↦ inl (done_so.kept k.id other ∙ listed)
          ]
        ]
      ]
    ]

    same-IsStoppable :
        (t : Task) (d' : CallDispatcher H)
        → ((c : ℕ) (k : Call) → t ≢ running c k)
        → d'.task ≡ update d.task i t
        → d'.active_calls ≡ d.active_calls
        → d'.cancelled ≡ d.cancelled
        → IsStoppable d'
    same-IsStoppable t d' ne tasks active stopped j c k at =
        let (at', n) = running-update d.task i j c t k (ne c k) (rw tasks at at) in
        rw (active, stopped) (s j c k at')

    dispatch-IsStoppable : IsStoppable (dispatch i call d)
    unfolding dispatch cancel_call
    dispatch-IsStoppable = elim (Bool-cases (str_eq call.method call_method_cancel)) [
      | inl cancels ↦
          let m = (eq_iff call.method call_method_cancel).0 cancels in
          elim (Option-cases (lookup call.id d.active_calls)) [
            | inl missing ↦
                same-IsStoppable done (dispatch i call d) (λ c k e. cc)
                  (rw (dispatch_cancel_missing i call d m missing))
                  (rw (dispatch_cancel_missing i call d m missing))
                  (rw (dispatch_cancel_missing i call d m missing))
            | inr (ctx, found) ↦
                found-IsStoppable ctx (dispatch i call d) found
                  (dispatch-Cancelled i ctx call d m found)
          ]
      | inr calls ↦ elim (Option-cases (lookup call.method d.handlers)) [
        | inl unknown ↦
            same-IsStoppable done (dispatch i call d) (λ c k e. cc) (ground arith) (ground arith)
              (ground arith)
        | inr (handler, known) ↦
            same-IsStoppable (registering d.next call) (dispatch i call d) (λ c k e. cc)
              (ground arith) (ground arith) (ground arith)
      ]
    ]

    register-IsStoppable :
        (c : ℕ) → d.task i ≡ registering c call → IsStoppable (register i c call d)
    unfolding register
    register-IsStoppable c here j ctx k at = elim (ℕ_discrete i j) [
      | yes e ↦ inl (ground (arith, lookup-insert_self call.id c d.active_calls))
      | no n ↦
          let at' : d.task j ≡ running ctx k = ground arith in
          let other : k.id ≢ call.id = λ e. n (u i j k.id (ground arith) (ground arith)) in
          elim (s j ctx k at') [
            | inl listed ↦ inl (lookup-insert_ne call.id k.id c d.active_calls other ∙ listed)
            | inr was ↦ inr was
          ]
    ]

    unregister-IsStoppable :
        (c : ℕ) → d.task i ≡ finishing c call → IsStoppable (unregister i c call d)
    unfolding unregister
    unregister-IsStoppable c here j ctx k at =
        let (at', n) = running-update d.task i j ctx done k (λ e. cc) at in
        let other : k.id ≢ call.id = λ e. n (u i j k.id (ground arith) (ground arith)) in
        elim (s j ctx k at') [
          | inl listed ↦ inl (lookup-delete_ne call.id k.id d.active_calls other ∙ listed)
          | inr was ↦ inr was
        ]

  dispatch-IsUnique :
      (d : CallDispatcher H) (i : ℕ) (call : Call)
      → d.task i ≡ decoded call
      → IsUnique d.task
      → IsUnique (dispatch i call d).task
  unfolding dispatch
  dispatch-IsUnique d i call at u = elim (Bool-cases (str_eq call.method call_method_cancel)) [
    | inl cancels ↦
        rw (cancels, dispatch)
          (rw (cancel_call-task d i call) (IsUnique-update d.task i done (λ id e. cc) u))
    | inr calls ↦ elim (Option-cases (lookup call.method d.handlers)) [
      | inl unknown ↦
          rw (calls, dispatch) (rw unknown (IsUnique-update d.task i done (λ id e. cc) u))
      | inr (handler, known) ↦
          rw (calls, dispatch)
            (rw known (IsUnique-update d.task i (registering d.next call) (λ id e. ground arith) u))
    ]
  ]

  -- Under clients that do not reuse an id in flight, every step keeps the ids apart and every running
  -- call stoppable.
  pub Step-IsStoppable :
      {d d' : CallDispatcher H}
      → Step FreshId d d'
      → IsUnique d.task
      → IsStoppable d
      → IsUnique d'.task × IsStoppable d'
  unfolding register unregister
  Step-IsStoppable {d} (receive i call at fresh) u s = (
    IsUnique-new d.task i (decoded call) fresh u,
    same-IsStoppable d u s i call (decoded call)
        (record d { task = update d.task i (decoded call) }) (λ c k e. cc) refl refl refl,
  )
  Step-IsStoppable {d} (dispatches i call at) u s =
      (dispatch-IsUnique d i call at u, dispatch-IsStoppable d u s i call)
  Step-IsStoppable {d} (registers i c call at) u s = (
    IsUnique-update d.task i (running c call) (λ id e. ground arith) u,
    register-IsStoppable d u s i call c at,
  )
  Step-IsStoppable (emits i c call text at) u s = (u, s)
  Step-IsStoppable {d} (returns i c call at) u s = (
    IsUnique-update d.task i (finishing c call) (λ id e. ground arith) u,
    same-IsStoppable d u s i call (finishing c call)
        (record d { task = update d.task i (finishing c call) }) (λ c k e. cc) refl refl refl,
  )
  Step-IsStoppable {d} (unregisters i c call at) u s =
      (IsUnique-update d.task i done (λ id e. cc) u, unregister-IsStoppable d u s i call c at)

  Reach-IsStoppable :
      (hs : Dict H) {d : CallDispatcher H} → Reach FreshId hs d → IsUnique d.task × IsStoppable d
  Reach-IsStoppable hs start = (λ i j id e f. cc, λ j c k e. cc)
  Reach-IsStoppable hs (later r st) = let (u, s) = Reach-IsStoppable hs r in Step-IsStoppable st u s

  -- Where the client reuses no id in flight, a cancel request for the id of a running call leaves the
  -- context of that call cancelled, in every reachable state.
  pub cancel_reaches_running :
      (hs : Dict H) (i j ctx : ℕ) (call request : Call) {d : CallDispatcher H}
      → Reach FreshId hs d
      → d.task j ≡ running ctx call
      → request.method ≡ call_method_cancel
      → request.id ≡ call.id
      → (dispatch i request d).cancelled ctx ≡ true
  cancel_reaches_running hs i j ctx call request {d} r at m same =
      elim ((Reach-IsStoppable hs r).1 j ctx call at) [
        | inl listed ↦ (dispatch-Cancelled i ctx request d m (rw same listed)).stopped
        | inr was ↦ elim (Option-cases (lookup request.id d.active_calls)) [
          | inl missing ↦ rw (dispatch_cancel_missing i request d m missing) was
          | inr (c, found) ↦
              let after = dispatch-Cancelled i c request d m found in
              elim (ℕ_discrete ctx c) [
                | yes e ↦ rw e after.stopped
                | no ne ↦ after.others ctx ne ∙ was
              ]
        ]
      ]
