-- ===== src/Stream/Dispatching.antt =====
-- api/stream/stream.go: which messages `dispatchLoop` dispatches, and what becomes of them.
use k8s_explore.Base.{
  ℕ, Bool, true, false, none, some, List, [], ◌∷◌, ◌++◌, ◌≡◌, refl, ◌∙◌, arith, All, map,
  append_assoc, append-nil, Bool-cases, inl, inr, if◌then◌else◌,
}
use k8s_explore.Stream.{
  failed, close, received, Arrival, cancelled, frame, read_message, Dispatched, Conn, dispatch_loop,
  dispatch_message, register_message_handler,
}

-- An error, a close frame or a cancellation is among the arrivals.
abbrev pub stops : {Message : Type 0} → List (Arrival Message) → Bool
stops [] = false
stops (a ∷ arrivals) =
    let rest = stops arrivals in elim (read_message a) [ none ↦ true | some _ ↦ rest ]

abbrev pub untyped : {Message : Type 0} → Message → Dispatched Message
untyped msg = record { msg = msg; type = "" }

module _ {Message : Type 0} (undecodable : Message → Bool) where
  -- The messages that arrive before the first error, close frame or cancellation, less those that do
  -- not decode.
  abbrev pub accepted : List (Arrival Message) → List Message
  accepted [] = []
  accepted (a ∷ arrivals) =
      let rest = accepted arrivals in
      elim (read_message a) [ none ↦ [] | some msg ↦ if undecodable msg then rest else msg ∷ rest ]

  dispatch_loop_from :
      (arrivals : List (Arrival Message)) (sent : List (Dispatched Message))
      → dispatch_loop undecodable arrivals sent
        ≡ (sent ++ map untyped (accepted arrivals), stops arrivals)
  unfolding dispatch_loop
  dispatch_loop_from [] sent = rw (append-nil sent)
  dispatch_loop_from (cancelled ∷ arrivals) sent = rw (append-nil sent)
  dispatch_loop_from (frame failed ∷ arrivals) sent = rw (append-nil sent)
  dispatch_loop_from (frame close ∷ arrivals) sent = rw (append-nil sent)
  dispatch_loop_from (frame (received msg) ∷ arrivals) sent = elim (Bool-cases (undecodable msg)) [
    | inl bad ↦ rw bad (dispatch_loop_from arrivals sent)
    | inr good ↦ rw good (
        dispatch_loop_from arrivals (sent ++ untyped msg ∷ [])
        ∙ rw (append_assoc sent (untyped msg ∷ []) (map untyped (accepted arrivals))))
  ]

  -- `dispatchLoop` dispatches the accepted messages in the order of their arrival, all of them by the
  -- empty type, and it ends exactly if an error, a close frame or a cancellation arrives.
  pub dispatch_loop_lem :
      (arrivals : List (Arrival Message))
      → dispatch_loop undecodable arrivals [] ≡ (map untyped (accepted arrivals), stops arrivals)
  dispatch_loop_lem arrivals = dispatch_loop_from arrivals []

  accepted-nil :
      ((msg : Message) → undecodable msg ≡ true)
      → (arrivals : List (Arrival Message)) → accepted arrivals ≡ []
  unfolding read_message
  accepted-nil never [] = refl
  accepted-nil never (cancelled ∷ arrivals) = refl
  accepted-nil never (frame failed ∷ arrivals) = refl
  accepted-nil never (frame close ∷ arrivals) = refl
  accepted-nil never (frame (received msg) ∷ arrivals) =
      ground (arith, never msg, accepted-nil never arrivals)

  -- `json.Unmarshal` is documented to return an error where its target is no pointer. Then no message
  -- is dispatched at all.
  pub dispatch_loop_undecodable :
      ((msg : Message) → undecodable msg ≡ true)
      → (arrivals : List (Arrival Message))
      → dispatch_loop undecodable arrivals [] ≡ ([], stops arrivals)
  dispatch_loop_undecodable never arrivals =
      dispatch_loop_lem arrivals ∙ rw (accepted-nil never arrivals)

  module _ {H : Type 0} (handle : H → Message → List Message) (writes : ℕ → Bool) where
    untyped-All :
        (h : H) (msgs : List Message)
        → All
            (λ d.
              (c : Conn Message)
              → dispatch_message handle writes (register_message_handler "call" h []) d c ≡ c)
            (map untyped msgs)
    unfolding dispatch_message register_message_handler
    untyped-All h [] = tt
    untyped-All h (msg ∷ msgs) = (λ c. refl, untyped-All h msgs)

    -- Whatever `json.Unmarshal` returns: with `main.go`'s one handler, registered for "call", no
    -- message that arrives reaches the handler, and the goroutine of none changes the connection.
    pub call_never_handled :
        (h : H) (arrivals : List (Arrival Message))
        → All
            (λ d.
              (c : Conn Message)
              → dispatch_message handle writes (register_message_handler "call" h []) d c ≡ c)
            (dispatch_loop undecodable arrivals []).0
    call_never_handled h arrivals =
        rw (dispatch_loop_lem arrivals) (untyped-All h (accepted arrivals))
