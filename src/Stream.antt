-- ===== src/Stream.antt =====
-- api/stream/stream.go: the websocket endpoint. `dispatchLoop` reads messages and starts a goroutine
-- for each; `dispatchMessage` runs the handler of the message's type and writes what it replies.
-- The loop's input is the list of what the `select` of `readMessage` took in each round.
pub mod Dispatching
pub mod Writing
pub mod Connection
pub mod Refined
use k8s_explore.Base.{
  ℕ, zero, suc, ◌+◌, String, Bool, true, false, Option, none, some, List, [], ◌∷◌, ◌++◌, ◌||◌, not,
}
use k8s_explore.Base.Dict.{Dict, lookup, insert}

-- What `conn.ReadMessage` returns: an error, a close frame, or a message.
pub data Frame (Message : Type 0) : Type 0 where
  failed : Frame Message
  close : Frame Message
  received : Message → Frame Message

-- The case that the `select` of `readMessage` takes.
pub data Arrival (Message : Type 0) : Type 0 where
  cancelled : Arrival Message
  frame : Frame Message → Arrival Message

module _ {Message : Type 0} where
  -- `readMessage`, as `dispatchLoop` tests it: `none` where the error is set or the message is nil.
  unfoldable pub read_message : Arrival Message → Option Message
  read_message cancelled = none
  read_message (frame failed) = none
  read_message (frame close) = none
  read_message (frame (received msg)) = some msg

-- A message with the type that it is dispatched by.
pub record Dispatched (Message : Type 0) : Type 0 where
  pub msg : Message
  pub type : String

-- The connection: what has been written, how many writes have been tried, and whether the context of
-- the dispatcher has been cancelled.
pub record Conn (Message : Type 0) : Type 0 where
  pub written : List Message
  pub attempts : ℕ
  pub cancelled : Bool

-- `Handler.RegisterMessageHandler`
unfoldable pub register_message_handler : {H : Type 0} → String → H → Dict H → Dict H
register_message_handler message_type handler handlers = insert message_type handler handlers

module _ {Message : Type 0} where
  -- The loop of `dispatchLoop`: the goroutines that it starts, in order, and whether it has ended, by
  -- cancelling the context and closing the connection. `undecodable msg` says that the call
  -- `json.Unmarshal(msg, partial)` returns an error. The call is given `partial` by value, so its
  -- field `Type` stays "" whatever the call does.
  unfoldable pub dispatch_loop :
      (Message → Bool)
      → List (Arrival Message)
      → List (Dispatched Message)
      → List (Dispatched Message) × Bool
  unfolding read_message
  dispatch_loop undecodable [] sent = (sent, false)
  dispatch_loop undecodable (a ∷ arrivals) sent = elim (read_message a) [
    | none ↦ (sent, true)
    | some msg ↦ elim (undecodable msg) [
      | true ↦ dispatch_loop undecodable arrivals sent
      | false ↦ dispatch_loop undecodable arrivals (sent ++ record { msg = msg; type = "" } ∷ [])
    ]
  ]

  -- `writeMessage`; `writes n` says whether the write numbered `n` of this connection succeeds.
  unfoldable pub write_message : (ℕ → Bool) → Message → Conn Message → Conn Message
  write_message writes msg c = elim (writes c.attempts) [
    | true ↦ record c { written = c.written ++ msg ∷ []; attempts = c.attempts + 1 }
    | false ↦ record c { attempts = c.attempts + 1; cancelled = true }
  ]

  -- `for message := range reply { d.writeMessage(message) }`
  unfoldable pub write_all : (ℕ → Bool) → List Message → Conn Message → Conn Message
  unfolding write_message
  write_all writes [] c = c
  write_all writes (msg ∷ msgs) c = write_all writes msgs (write_message writes msg c)

  -- `dispatchMessage`; `handle h msg` is what the handler `h` sends before its `reply` is closed.
  unfoldable pub dispatch_message :
      {H : Type 0}
      → (H → Message → List Message)
      → (ℕ → Bool)
      → Dict H
      → Dispatched Message
      → Conn Message
      → Conn Message
  unfolding write_all
  dispatch_message handle writes handlers d c = elim (lookup d.type handlers) [
    | none ↦ c
    | some h ↦ write_all writes (handle h d.msg) c
  ]
