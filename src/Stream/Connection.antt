-- ===== src/Stream/Connection.antt =====
-- api/stream/stream.go: all goroutines of one connection, as a step relation: the loop of
-- `dispatchLoop`, the goroutine that each `readMessage` starts, each `dispatchMessage` and the
-- goroutine of its handler. What a read returns, what a handler sends and whether a write succeeds
-- are the environment's. A write holds `msgWriteLock` and is one step.
use k8s_explore.Base.{
  ℕ, String, Bool, true, false, none, some, List, [], ◌∷◌, ◌++◌, ◌≡◌, get_elem?, set, if◌then◌else◌,
}
use k8s_explore.Base.Dict.{Dict, lookup}
use k8s_explore.Stream.{Frame, Arrival, frame, read_message, Dispatched}

-- The goroutine of `readMessage`: it reads, it offers the result on the channel `read`, or it is over.
pub data Reader (Message : Type 0) : Type 0 where
  reading finished : Reader Message
  offering : Frame Message → Reader Message

-- Where `dispatchLoop` stands: at the call of `readMessage`, in its `select`, at the decoding of a
-- message, at `d.cancel()`, at `d.conn.Close()`, or at its end.
pub data Phase (Message : Type 0) : Type 0 where
  calling awaiting breaking closing ended : Phase Message
  decoding : Message → Phase Message

-- Where `dispatchMessage` stands: at the look-up, at `range reply`, in a write, or at its end.
pub data Writer (Message : Type 0) : Type 0 where
  looking receiving over : Writer Message
  writing : Message → Writer Message

-- `sent` is what the handler has sent on `reply`, `returned` whether the channel is closed.
pub record Task (Message : Type 0) : Type 0 where
  pub job : Dispatched Message
  pub writer : Writer Message
  pub returned : Bool
  pub sent : List Message

-- The newest reader stands first, the tasks stand in the order of their start. `attempts` are the
-- writes that were tried, with the task of each, and `taken` is what the `select` took.
pub record Connection (Message : Type 0) : Type 0 where
  pub phase : Phase Message
  pub readers : List (Reader Message)
  pub tasks : List (Task Message)
  pub cancelled : Bool
  pub closed : Bool
  pub attempts : List (ℕ × Message)
  pub taken : List (Arrival Message)

-- `newMessageDispatcher`
abbrev pub new_connection : {Message : Type 0} → Connection Message
new_connection = record {
  phase = calling;
  readers = [];
  tasks = [];
  cancelled = false;
  closed = false;
  attempts = [];
  taken = [];
}

-- What `Handler.Connect` leads to: an error reply, or the goroutines of a connection.
pub data Connected (Message : Type 0) : Type 0 where
  refused : (status : ℕ) → (error : String) → Connected Message
  serving : Connection Message → Connected Message

-- `Handler.Connect`, by whether the upgrade of the request succeeds.
abbrev pub connect : {Message : Type 0} → Bool → Connected Message
connect upgraded = if upgraded then serving new_connection else refused 500 "upgrade failed"

abbrev pub new_task : {Message : Type 0} → Message → Task Message
new_task msg = record {
  job = record { msg = msg; type = "" };
  writer = looking;
  returned = false;
  sent = [];
}

-- The goroutine of the handler has been started, and `reply` is still read.
abbrev pub is_serving : {Message : Type 0} → Writer Message → Bool
is_serving looking = false
is_serving receiving = true
is_serving (writing msg) = true
is_serving over = false

-- The test of the loop after a read.
abbrev pub after_read : {Message : Type 0} → Arrival Message → Phase Message
after_read a = elim (read_message a) [ none ↦ breaking | some msg ↦ decoding msg ]

module _ {Message : Type 0} where
  abbrev pub take :
      Arrival Message → List (Reader Message) → Connection Message → Connection Message
  take a readers s = record s { phase = after_read a; readers = readers; taken = s.taken ++ a ∷ [] }

  abbrev pub put : ℕ → Task Message → Connection Message → Connection Message
  put i t s = record s { tasks = set s.tasks i t }

  abbrev pub write : ℕ → Message → Bool → Connection Message → Connection Message
  write i msg succeeds s = record s {
    attempts = s.attempts ++ (i, msg) ∷ [];
    cancelled = if succeeds then s.cancelled else true;
  }

module _ {Message H : Type 0} (undecodable : Message → Bool) (handlers : Dict H) where
  pub data Step (s : Connection Message) : Connection Message → Type 0 where
    calls :
        s.phase ≡ calling → Step s (record s { phase = awaiting; readers = reading ∷ s.readers })
    reads :
        (i : ℕ) (f : Frame Message)
        → get_elem? s.readers i ≡ some reading
        → Step s (record s { readers = set s.readers i (offering f) })
    receives :
        (f : Frame Message) (older : List (Reader Message))
        → s.phase ≡ awaiting
        → s.readers ≡ offering f ∷ older
        → Step s (take (frame f) (finished ∷ older) s)
    sees_cancel :
        s.phase ≡ awaiting → s.cancelled ≡ true → Step s (take Arrival.cancelled s.readers s)
    skips :
        (msg : Message)
        → s.phase ≡ decoding msg
        → undecodable msg ≡ true
        → Step s (record s { phase = calling })
    dispatches :
        (msg : Message)
        → s.phase ≡ decoding msg
        → undecodable msg ≡ false
        → Step s (record s { phase = calling; tasks = s.tasks ++ new_task msg ∷ [] })
    cancels : s.phase ≡ breaking → Step s (record s { phase = closing; cancelled = true })
    closes : s.phase ≡ closing → Step s (record s { phase = ended; closed = true })
    finds :
        (i : ℕ) (t : Task Message) (h : H)
        → get_elem? s.tasks i ≡ some t
        → t.writer ≡ looking
        → lookup t.job.type handlers ≡ some h
        → Step s (put i (record t { writer = receiving }) s)
    drops :
        (i : ℕ) (t : Task Message)
        → get_elem? s.tasks i ≡ some t
        → t.writer ≡ looking
        → lookup t.job.type handlers ≡ none
        → Step s (put i (record t { writer = over }) s)
    sends :
        (i : ℕ) (t : Task Message) (msg : Message)
        → get_elem? s.tasks i ≡ some t
        → t.writer ≡ receiving
        → t.returned ≡ false
        → Step s (put i (record t { writer = writing msg; sent = t.sent ++ msg ∷ [] }) s)
    writes :
        (i : ℕ) (t : Task Message) (msg : Message) (succeeds : Bool)
        → get_elem? s.tasks i ≡ some t
        → t.writer ≡ writing msg
        → Step s (write i msg succeeds (put i (record t { writer = receiving }) s))
    returns :
        (i : ℕ) (t : Task Message)
        → get_elem? s.tasks i ≡ some t
        → is_serving t.writer ≡ true
        → t.returned ≡ false
        → Step s (put i (record t { returned = true }) s)
    finishes :
        (i : ℕ) (t : Task Message)
        → get_elem? s.tasks i ≡ some t
        → t.writer ≡ receiving
        → t.returned ≡ true
        → Step s (put i (record t { writer = over }) s)

  pub data Reach : Connection Message → Type 0 where
    begin : Reach new_connection
    later : {s s' : Connection Message} → Reach s → Step s s' → Reach s'
