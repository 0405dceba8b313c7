-- ===== src/Rpc/Clash.antt =====
-- api/stream/rpc/rpc.go: two calls in flight with one id, and calls of unknown methods.
use k8s_explore.Base.{ℕ, false, none, [], ◌∷◌, ◌++◌, ◌≡◌, ◌≢◌, refl, arith}
use k8s_explore.Base.Dict.{lookup, lookup-delete_self}
use k8s_explore.Rpc.{
  Call, ok_reply, running, finishing, CallDispatcher, call_method_cancel, dispatch, unregister,
}
use k8s_explore.Rpc.Cancel.{dispatch_cancel_missing}

module _ {H : Type 0} where
  -- Where two calls in flight share an id, the first that returns takes the entry of both: the other
  -- runs on, and a cancel request for the id is answered "ok" and does not stop it.
  pub shared_id_lost :
      (d : CallDispatcher H) (i j k ctx ctx' : ℕ) (call call' request : Call)
      → d.task i ≡ finishing ctx call
      → d.task j ≡ running ctx' call'
      → call.id ≡ call'.id
      → d.cancelled ctx' ≡ false
      → request.method ≡ call_method_cancel
      → request.id ≡ call'.id
      → k ≢ j
      → let d' = dispatch k request (unregister i ctx call d) in
        (d'.task j ≡ running ctx' call')
        × (d'.cancelled ctx' ≡ false)
        × (d'.replies ≡ d.replies ++ (k, ok_reply request.id) ∷ [])
  unfolding unregister
  shared_id_lost d i j k ctx ctx' call call' request at_i at_j shared alive m same other =
      let gone : lookup request.id (unregister i ctx call d).active_calls ≡ none =
        rw (same, ← shared) (lookup-delete_self call.id d.active_calls) in
      rw (dispatch_cancel_missing k request (unregister i ctx call d) m gone)
        (ground arith, alive, refl)
