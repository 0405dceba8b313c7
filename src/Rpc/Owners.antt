-- ===== src/Rpc/Owners.antt =====
-- api/stream/rpc/rpc.go: every entry of `activeCalls` belongs to a call that is still in `Handle`,
-- also where two calls share an id.
use k8s_explore.Base.{
  update, ℕ, String, str_eq, Option, none, some, ◌≡◌, ◌≢◌, sym, arith, inl, inr, Option-cases,
  Bool-cases,
}
use k8s_explore.Base.Dict.{Dict, lookup, lookup-insert-cases, lookup-delete-cases}
use k8s_explore.Rpc.{
  Call, Task, decoded, registering, running, finishing, done, CallDispatcher, call_method_cancel,
  cancel_call, dispatch, register, unregister, Step, receive, dispatches, registers, emits, returns,
  unregisters, Reach, start, later,
}

-- The context and the call of a task between its two locks.
abbrev pub holds : Task → Option (ℕ × Call)
holds (running ctx call) = some (ctx, call)
holds (finishing ctx call) = some (ctx, call)
holds _ = none

holds-update_none :
    (f : ℕ → Task) (i j : ℕ) (t : Task) {v : ℕ × Call}
    → holds (f i) ≡ none
    → holds (f j) ≡ some v
    → holds (update f i t j) ≡ some v
holds-update_none f i j t empty h = ground arith

holds-update_same :
    (f : ℕ → Task) (i j : ℕ) (t : Task) {v : ℕ × Call}
    → holds t ≡ holds (f i)
    → holds (f j) ≡ some v
    → holds (update f i t j) ≡ some v
holds-update_same f i j t same h = ground arith

-- Some task with that id holds the context.
abbrev pub IsOwned : (ℕ → Task) → String → ℕ → Type 0
IsOwned task id ctx = (j : ℕ) × (call : Call) × (holds (task j) ≡ some (ctx, call)) × (call.id ≡ id)

IsOwned-update :
    (f : ℕ → Task) (i : ℕ) (t : Task) (id : String) (ctx : ℕ)
    → holds (f i) ≡ none
    → IsOwned f id ctx
    → IsOwned (update f i t) id ctx
IsOwned-update f i t id ctx empty (j, call, h, same) =
    (j, call, holds-update_none f i j t empty h, same)

module _ {H : Type 0} where
  abbrev pub EntriesOwned : CallDispatcher H → Type 0
  EntriesOwned d =
      (id : String) (ctx : ℕ) → lookup id d.active_calls ≡ some ctx → IsOwned d.task id ctx

  module _ (d : CallDispatcher H) (i : ℕ) (call : Call) where
    pub cancel_call-task : (cancel_call i call d).task ≡ update d.task i done
    unfolding cancel_call
    cancel_call-task = elim (Option-cases (lookup call.id d.active_calls)) [
      | inl missing ↦ rw (missing, cancel_call)
      | inr (c, found) ↦ rw (found, cancel_call)
    ]

    pub cancel_call-lookup :
        (id : String) (ctx : ℕ)
        → lookup id (cancel_call i call d).active_calls ≡ some ctx
        → lookup id d.active_calls ≡ some ctx
    unfolding cancel_call
    cancel_call-lookup id ctx h = elim (Option-cases (lookup call.id d.active_calls)) [
      | inl missing ↦ rw (missing, cancel_call) at h
      | inr (c, found) ↦
          (lookup-delete-cases call.id id d.active_calls (rw (found, cancel_call) at h)).1
    ]

  module _ (d : CallDispatcher H) (inv : EntriesOwned d) (i : ℕ) (call : Call) where
    cancel_call-EntriesOwned : holds (d.task i) ≡ none → EntriesOwned (cancel_call i call d)
    cancel_call-EntriesOwned empty id ctx h = rw (cancel_call-task d i call) (
        IsOwned-update d.task i done id ctx empty
          (inv id ctx (cancel_call-lookup d i call id ctx h)))

    dispatch-EntriesOwned : holds (d.task i) ≡ none → EntriesOwned (dispatch i call d)
    unfolding dispatch
    dispatch-EntriesOwned empty id ctx h =
        elim (Bool-cases (str_eq call.method call_method_cancel)) [
          | inl cancels ↦
              rw (cancels, dispatch)
                (cancel_call-EntriesOwned empty id ctx (rw (cancels, dispatch) at h))
          | inr calls ↦ elim (Option-cases (lookup call.method d.handlers)) [
            | inl unknown ↦
                rw (calls, dispatch)
                  (rw unknown (
                    IsOwned-update d.task i done id ctx empty
                      (inv id ctx (rw unknown at (rw (calls, dispatch) at h)))))
            | inr (handler, known) ↦
                rw (calls, dispatch)
                  (rw known (
                    IsOwned-update d.task i (registering d.next call) id ctx empty
                      (inv id ctx (rw known at (rw (calls, dispatch) at h)))))
          ]
        ]

    register-EntriesOwned : (c : ℕ) → holds (d.task i) ≡ none → EntriesOwned (register i c call d)
    unfolding register
    register-EntriesOwned c empty id ctx h =
        elim (lookup-insert-cases call.id id c d.active_calls h) [
          | inl (same, here) ↦ (i, call, ground arith, sym same)
          | inr (_, old) ↦ IsOwned-update d.task i (running c call) id ctx empty (inv id ctx old)
        ]

    unregister-EntriesOwned :
        (c : ℕ) → holds (d.task i) ≡ some (c, call) → EntriesOwned (unregister i c call d)
    unfolding unregister
    unregister-EntriesOwned c held id ctx h =
        let (other, old) = lookup-delete-cases call.id id d.active_calls h in
        let (j, call', held', same) = inv id ctx old in
        let apart : i ≢ j = λ e. other (ground arith) in (j, call', ground arith, same)

  -- Every step keeps the owners, whatever the environment admits.
  pub Step-EntriesOwned :
      (Admits : CallDispatcher H → Call → Type 0) {d d' : CallDispatcher H}
      → Step Admits d d'
      → EntriesOwned d
      → EntriesOwned d'
  Step-EntriesOwned A {d} (receive i call at _) inv =
      λ id ctx h. IsOwned-update d.task i (decoded call) id ctx (ground arith) (inv id ctx h)
  Step-EntriesOwned A {d} (dispatches i call at) inv =
      dispatch-EntriesOwned d inv i call (ground arith)
  Step-EntriesOwned A {d} (registers i c call at) inv =
      register-EntriesOwned d inv i call c (ground arith)
  Step-EntriesOwned A (emits i c call text at) inv = inv
  Step-EntriesOwned A {d} (returns i c call at) inv = λ id ctx h.
      let (j, call', held, same) = inv id ctx h in
      (j, call', holds-update_same d.task i j (finishing c call) (ground arith) held, same)
  Step-EntriesOwned A {d} (unregisters i c call at) inv =
      unregister-EntriesOwned d inv i call c (ground arith)

  pub Reach-EntriesOwned :
      (Admits : CallDispatcher H → Call → Type 0) (hs : Dict H) {d : CallDispatcher H}
      → Reach Admits hs d
      → EntriesOwned d
  Reach-EntriesOwned A hs start = λ id ctx h. cc
  Reach-EntriesOwned A hs (later r s) = Step-EntriesOwned A s (Reach-EntriesOwned A hs r)

  -- In every reachable state an entry of `activeCalls` belongs to a call with that id which has
  -- registered and has not unregistered, and holds its context.
  pub entry_has_owner :
      (Admits : CallDispatcher H → Call → Type 0) (hs : Dict H) (id : String) (ctx : ℕ)
      {d : CallDispatcher H}
      → Reach Admits hs d
      → lookup id d.active_calls ≡ some ctx
      → IsOwned d.task id ctx
  entry_has_owner A hs id ctx r found = Reach-EntriesOwned A hs r id ctx found

  -- In every reachable state nothing is left behind: where no call is between its two locks, `activeCalls` is empty.
  pub Reach-quiet :
      (Admits : CallDispatcher H → Call → Type 0) (hs : Dict H) {d : CallDispatcher H}
      → Reach Admits hs d
      → ((i : ℕ) → holds (d.task i) ≡ none)
      → (id : String) → lookup id d.active_calls ≡ none
  Reach-quiet A hs {d} r quiet id = elim (Option-cases (lookup id d.active_calls)) [
    | inl missing ↦ missing
    | inr (ctx, found) ↦
        let (j, call, held, _) = Reach-EntriesOwned A hs r id ctx found in cc (quiet j)
  ]
