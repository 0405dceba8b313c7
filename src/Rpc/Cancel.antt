-- ===== src/Rpc/Cancel.antt =====
-- api/stream/rpc/rpc.go: what a cancel request does, on each branch of `Handle`.
use k8s_explore.Base.{
  update, ℕ, String, eq_iff, true, none, some, [], ◌∷◌, ◌++◌, ◌≡◌, ◌≢◌, refl, arith,
}
use k8s_explore.Base.Dict.{lookup, delete, lookup-delete_self, lookup-delete_ne}
use k8s_explore.Rpc.{
  Call, ok_reply, done, CallDispatcher, call_method_cancel, cancel_call, dispatch,
}

module _ {H : Type 0} where
  -- What a cancel request of task `i` for `id` has done where `ctx` stood behind the id: it cancelled
  -- that context and no other, took that entry out and no other, and sent one reply.
  pub record Cancelled (i : ℕ) (id : String) (ctx : ℕ) (d d' : CallDispatcher H) : Type 0 where
    pub stopped : d'.cancelled ctx ≡ true
    pub others : (c : ℕ) → c ≢ ctx → d'.cancelled c ≡ d.cancelled c
    pub gone : lookup id d'.active_calls ≡ none
    pub kept : (j : String) → j ≢ id → lookup j d'.active_calls ≡ lookup j d.active_calls
    pub answered : d'.replies ≡ d.replies ++ (i, ok_reply id) ∷ []
    pub ended : d'.task i ≡ done
    pub tasks : (j : ℕ) → j ≢ i → d'.task j ≡ d.task j

  -- A cancel request for an id with an entry.
  pub dispatch-Cancelled :
      (i ctx : ℕ) (call : Call) (d : CallDispatcher H)
      → call.method ≡ call_method_cancel
      → lookup call.id d.active_calls ≡ some ctx
      → Cancelled i call.id ctx d (dispatch i call d)
  unfolding dispatch cancel_call
  dispatch-Cancelled i ctx call d cancels found =
      let e : dispatch i call d ≡ record d {
        cancelled = update d.cancelled ctx true;
        active_calls = delete call.id d.active_calls;
        task = update d.task i done;
        replies = d.replies ++ (i, ok_reply call.id) ∷ [];
      } =
        ground (arith, eq_iff call.method call_method_cancel) in
      rw e (record {
        stopped = ground arith;
        others = λ c ne. ground arith;
        gone = lookup-delete_self call.id d.active_calls;
        kept = λ j ne. lookup-delete_ne call.id j d.active_calls ne;
        answered = refl;
        ended = ground arith;
        tasks = λ j ne. ground arith;
      })

  -- A cancel request for an id without an entry is answered the same way, and changes nothing else.
  pub dispatch_cancel_missing :
      (i : ℕ) (call : Call) (d : CallDispatcher H)
      → call.method ≡ call_method_cancel
      → lookup call.id d.active_calls ≡ none
      → dispatch i call d ≡ record d {
        task = update d.task i done;
        replies = d.replies ++ (i, ok_reply call.id) ∷ [];
      }
  unfolding dispatch cancel_call
  dispatch_cancel_missing i call d cancels missing =
      ground (arith, eq_iff call.method call_method_cancel)
