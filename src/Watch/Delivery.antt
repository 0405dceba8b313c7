-- ===== src/Watch/Delivery.antt =====
-- watch.go and `dispatchMessage` of api/stream/stream.go: how the events of a watch get to the
-- connection. The event functions of the informer run in a goroutine of the informer, one after
-- another, and send on `reply`, which has no buffer; the goroutine that runs the call handler closes
-- `reply` when it returns; `dispatchMessage` receives and writes. A send that waits panics when its
-- channel is closed, and so does a send on a closed channel. `Message` is what `encodeResponse` makes.
pub mod Panics
use k8s_explore.Base.{Bool, true, false, Option, none, some, List, [], ◌∷◌, ◌++◌, ◌≡◌}

-- The goroutine of the call handler: at `<-ctx.Done()`, before the deferred `close(reply)`, after it.
pub data Handler : Type 0 where
  awaiting returned closed : Handler

-- Whether a message can pass from a sender to a receiver.
abbrev pub is_open : Handler → Bool
is_open closed = false
is_open _ = true

module _ (Message : Type 0) where
  -- `for message := range reply`: at the receive, in `writeMessage`, or after the loop.
  pub data Writer : Type 0 where
    receiving : Writer
    writing : Message → Writer
    ended : Writer

  -- `done` is the state of `ctx`, `sender` the event function that has a message to send. `tried` are
  -- the messages that `writeMessage` was called with, and whether the connection took them; `events`
  -- only records the messages that event functions were called for; both have the oldest first.
  pub record Delivery : Type 0 where
    pub done : Bool
    pub handler : Handler
    pub sender : Option Message
    pub writer : Writer
    pub tried : List (Message × Bool)
    pub events : List Message
    pub panicked : Bool

module _ {Message : Type 0} where
  -- The messages that are on the connection.
  abbrev pub taken : List (Message × Bool) → List Message
  taken [] = []
  taken ((m, true) ∷ tried) = m ∷ taken tried
  taken ((m, false) ∷ tried) = taken tried

  abbrev pub written : Delivery Message → List Message
  written s = taken s.tried

  abbrev pub start : Delivery Message
  start = record {
    done = false;
    handler = awaiting;
    sender = none;
    writer = receiving;
    tried = [];
    events = [];
    panicked = false;
  }

  pub data Step (s : Delivery Message) : Delivery Message → Type 0 where
    cancels : Step s (record s { done = true })
    happens :
        (m : Message)
        → s.sender ≡ none
        → Step s (record s { sender = some m; events = s.events ++ m ∷ [] })
    passes :
        (m : Message)
        → s.sender ≡ some m
        → s.writer ≡ receiving
        → is_open s.handler ≡ true
        → Step s (record s { sender = none; writer = writing m })
    writes :
        (m : Message)
        → s.writer ≡ writing m
        → Step s (record s { writer = receiving; tried = s.tried ++ (m, true) ∷ [] })
    fails :
        (m : Message)
        → s.writer ≡ writing m
        → Step s (record s { done = true; writer = receiving; tried = s.tried ++ (m, false) ∷ [] })
    returns : s.handler ≡ awaiting → s.done ≡ true → Step s (record s { handler = returned })
    closes : s.handler ≡ returned → Step s (record s { handler = closed })
    ends : s.writer ≡ receiving → s.handler ≡ closed → Step s (record s { writer = ended })
    panics :
        (m : Message)
        → s.sender ≡ some m
        → s.handler ≡ closed
        → Step s (record s { panicked = true })

  -- The steps until an event function panics.
  pub data Steps (s : Delivery Message) : Delivery Message → Type 0 where
    stay : Steps s s
    more : {t u : Delivery Message} → Steps s t → t.panicked ≡ false → Step t u → Steps s u
