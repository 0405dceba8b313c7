-- ===== src/Rpc.antt =====
-- api/stream/rpc/rpc.go: the dispatcher of RPC calls. `Handle` runs in one goroutine for each
-- message; goroutine `i` is task `i`, and one step is what it does between two points where another
-- goroutine can come in. A context made by `context.WithCancel` is a number, and `cancelled` says
-- which of them have been cancelled by their own cancel function. The JSON decoding of a message is
-- done by the environment, which hands a task a decoded call.
pub mod Owners
pub mod Cancel
pub mod Ids
pub mod Unique
pub mod Clash
use k8s_explore.Base.{
  update, ℕ, ◌+◌, ◌==◌, String, str_eq, Bool, true, false, Option, none, some, List, [], ◌∷◌, ◌++◌,
  ◌≡◌, if◌then◌else◌,
}
use k8s_explore.Base.Dict.{Dict, lookup, insert, delete}

-- `Call`, less the parameters, which the dispatcher only passes on.
pub record Call : Type 0 where
  pub id : String
  pub method : String

-- What is sent on `reply`: `okReply`, `koReply`, or a message of a call handler.
pub data Reply : Type 0 where
  ok_reply : String → Reply
  ko_reply : String → String → Reply
  event : String → Reply

-- Where a task stands in `Handle`.
pub data Task : Type 0 where
  idle : Task
  decoded : (call : Call) → Task
  registering : (ctx : ℕ) (call : Call) → Task
  running : (ctx : ℕ) (call : Call) → Task
  finishing : (ctx : ℕ) (call : Call) → Task
  done : Task

-- `CallDispatcher`, with the tasks that run in it. `H` is the type of call handlers.
pub record CallDispatcher (H : Type 0) : Type 0 where
  pub handlers : Dict H
  pub active_calls : Dict ℕ
  pub cancelled : ℕ → Bool
  pub next : ℕ
  pub task : ℕ → Task
  pub replies : List (ℕ × Reply)

abbrev pub call_method_cancel : String
call_method_cancel = ".cancel"

module _ {H : Type 0} where
  -- `NewCallDispatcher`
  abbrev pub new_call_dispatcher : CallDispatcher H
  new_call_dispatcher = record {
    handlers = [];
    active_calls = [];
    cancelled = λ _. false;
    next = 0;
    task = λ _. idle;
    replies = [];
  }

  -- `RegisterCallHandler`
  unfoldable pub register_call_handler : String → H → CallDispatcher H → CallDispatcher H
  register_call_handler method handler d = record d { handlers = insert method handler d.handlers }

  -- The branch of `Handle` for `.cancel`, all of it under the lock.
  unfoldable pub cancel_call : ℕ → Call → CallDispatcher H → CallDispatcher H
  cancel_call i call d = elim (lookup call.id d.active_calls) [
    | some ctx ↦ record d {
      cancelled = update d.cancelled ctx true;
      active_calls = delete call.id d.active_calls;
      task = update d.task i done;
      replies = d.replies ++ (i, ok_reply call.id) ∷ [];
    }
    | none ↦ record d {
      task = update d.task i done;
      replies = d.replies ++ (i, ok_reply call.id) ∷ [];
    }
  ]

  -- `Handle` from the decoded call up to the first lock.
  unfoldable pub dispatch : ℕ → Call → CallDispatcher H → CallDispatcher H
  unfolding cancel_call
  dispatch i call d =
      if str_eq call.method call_method_cancel
      then cancel_call i call d
      else elim (lookup call.method d.handlers) [
        | none ↦ record d {
          task = update d.task i done;
          replies = d.replies ++ (i, ko_reply call.id "Unknown method") ∷ [];
        }
        | some _ ↦ record d { next = d.next + 1; task = update d.task i (registering d.next call) }
      ]

  -- `d.activeCalls[call.ID] = cancel`
  unfoldable pub register : ℕ → ℕ → Call → CallDispatcher H → CallDispatcher H
  register i ctx call d = record d {
    active_calls = insert call.id ctx d.active_calls;
    task = update d.task i (running ctx call);
  }

  -- `delete(d.activeCalls, call.ID)`, and the return of `Handle`.
  unfoldable pub unregister : ℕ → ℕ → Call → CallDispatcher H → CallDispatcher H
  unregister i ctx call d = record d {
    active_calls = delete call.id d.active_calls;
    task = update d.task i done;
  }

-- One step of one task. The environment hands calls to idle tasks, as far as `Admits` lets it, and
-- decides what a running call handler sends and when it returns.
pub data Step {H : Type 0} (Admits : CallDispatcher H → Call → Type 0) (d : CallDispatcher H)
    : CallDispatcher H → Type 0 where
  receive :
      (i : ℕ) (call : Call)
      → d.task i ≡ idle
      → Admits d call
      → Step Admits d (record d { task = update d.task i (decoded call) })
  dispatches : (i : ℕ) (call : Call) → d.task i ≡ decoded call → Step Admits d (dispatch i call d)
  registers :
      (i ctx : ℕ) (call : Call)
      → d.task i ≡ registering ctx call
      → Step Admits d (register i ctx call d)
  emits :
      (i ctx : ℕ) (call : Call) (text : String)
      → d.task i ≡ running ctx call
      → Step Admits d (record d { replies = d.replies ++ (i, event text) ∷ [] })
  returns :
      (i ctx : ℕ) (call : Call)
      → d.task i ≡ running ctx call
      → Step Admits d (record d { task = update d.task i (finishing ctx call) })
  unregisters :
      (i ctx : ℕ) (call : Call)
      → d.task i ≡ finishing ctx call
      → Step Admits d (unregister i ctx call d)

-- The states that a dispatcher with the handlers `hs` reaches.
pub data Reach {H : Type 0} (Admits : CallDispatcher H → Call → Type 0) (hs : Dict H)
    : CallDispatcher H → Type 0 where
  start : Reach Admits hs (record new_call_dispatcher { handlers = hs })
  later : {d d' : CallDispatcher H} → Reach Admits hs d → Step Admits d d' → Reach Admits hs d'
