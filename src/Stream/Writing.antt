-- ===== src/Stream/Writing.antt =====
-- api/stream/stream.go: the replies of one handler reach the connection in order, and a failed write
-- cancels the context but not the writes after it.
use k8s_explore.Base.{
  ℕ, ◌+◌, Bool, false, not, List, [], ◌∷◌, ◌++◌, ◌≡◌, arith, length, append_assoc, append-nil,
  Bool-cases, Option-cases, none, some, inl, inr, ◌||◌, if◌then◌else◌,
}
use k8s_explore.Base.Dict.{Dict, lookup}
use k8s_explore.Stream.{Dispatched, Conn, write_message, write_all, dispatch_message}

module _ {Message : Type 0} (writes : ℕ → Bool) where
  -- Of the messages written from the write numbered `n` on, those whose write succeeds, in order.
  abbrev pub delivered : ℕ → List Message → List Message
  delivered n [] = []
  delivered n (msg ∷ msgs) =
      let rest = delivered (n + 1) msgs in if writes n then msg ∷ rest else rest

  -- One of the next writes, as many as there are messages, fails.
  abbrev pub breaks : ℕ → List Message → Bool
  breaks n [] = false
  breaks n (msg ∷ msgs) = let rest = breaks (n + 1) msgs in not (writes n) || rest

  -- Every message is tried, in order: the connection gets those whose write succeeds, and the context
  -- is cancelled exactly if it was before or a write fails.
  pub write_all_lem :
      (msgs : List Message) (c : Conn Message)
      → write_all writes msgs c ≡ record {
        written = c.written ++ delivered c.attempts msgs;
        attempts = c.attempts + length msgs;
        cancelled = c.cancelled || breaks c.attempts msgs;
      }
  unfolding write_all
  write_all_lem [] c = ground (arith, append-nil c.written)
  write_all_lem (msg ∷ msgs) c = elim (Bool-cases (writes c.attempts)) [
    | inl fine ↦ ground (
      arith,
      write_all_lem msgs (write_message writes msg c),
      append_assoc c.written (msg ∷ []) (delivered (c.attempts + 1) msgs),
    )
    | inr broken ↦ ground (arith, write_all_lem msgs (write_message writes msg c))
  ]

  -- A dispatched message with a handler: all that the handler sends is tried, in order. One without a
  -- handler changes nothing.
  pub dispatch_message_lem :
      {H : Type 0} (handle : H → Message → List Message) (handlers : Dict H)
      (d : Dispatched Message) (c : Conn Message)
      → dispatch_message handle writes handlers d c ≡ elim (lookup d.type handlers) [
        | none ↦ c
        | some h ↦ record {
          written = c.written ++ delivered c.attempts (handle h d.msg);
          attempts = c.attempts + length (handle h d.msg);
          cancelled = c.cancelled || breaks c.attempts (handle h d.msg);
        }
      ]
  unfolding dispatch_message
  dispatch_message_lem handle handlers d c = elim (Option-cases (lookup d.type handlers)) [
    | inl missing ↦ ground arith
    | inr (h, found) ↦ ground (arith, write_all_lem (handle h d.msg) c)
  ]
