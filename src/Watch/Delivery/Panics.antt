-- ===== src/Watch/Delivery/Panics.antt =====
-- watch.go: the order in which the messages of a watch are written, and what a cancelled watch can do.
use k8s_explore.Base.{
  Bool, true, false, Option, none, some, List, [], ◌∷◌, ◌++◌, ◌≡◌, ◌≢◌, ◌⊎◌, inl, inr, refl, sym,
  ap, ◌∙◌, append_assoc, append-nil, map,
}
use k8s_explore.Watch.Delivery.{
  Handler, awaiting, returned, closed, Writer, receiving, writing, ended, Delivery, Step, cancels,
  taken, written, happens, passes, writes, fails, returns, closes, ends, panics, Steps, stay, more,
  start,
}

abbrev HandlerOk : Handler → Bool → Type 0
HandlerOk awaiting done = Unit
HandlerOk returned done = done ≡ true
HandlerOk closed done = done ≡ true

HandlerOk-done : (h : Handler) (done : Bool) → HandlerOk h done → HandlerOk h true
HandlerOk-done awaiting done h = tt
HandlerOk-done returned done h = refl
HandlerOk-done closed done h = refl

module _ {Message : Type 0} where
  abbrev pub held : Writer Message → List Message
  held receiving = []
  held (writing m) = m ∷ []
  held ended = []

  abbrev pub waiting : Option Message → List Message
  waiting none = []
  waiting (some m) = m ∷ []

  -- The messages that were tried.
  abbrev names : Delivery Message → List Message
  names s = map (λ e. e.0) s.tried

  names-append :
      (tried : List (Message × Bool)) (m : Message) (b : Bool)
      → map (λ e. e.0) (tried ++ (m, b) ∷ []) ≡ map (λ e. e.0) tried ++ m ∷ []
  names-append [] m b = refl
  names-append (e ∷ tried) m b = ap (λ xs. e.0 ∷ xs) (names-append tried m b)

  taken-append :
      (tried : List (Message × Bool)) (m : Message)
      → taken (tried ++ (m, true) ∷ []) ≡ taken tried ++ m ∷ []
  taken-append [] m = refl
  taken-append ((x, true) ∷ tried) m = ap (λ xs. x ∷ xs) (taken-append tried m)
  taken-append ((x, false) ∷ tried) m = taken-append tried m

  -- A message that was being written counts as tried.
  tried_order :
      (s : Delivery Message) (m : Message) (b : Bool)
      → s.writer ≡ writing m
      → s.events ≡ map (λ e. e.0) s.tried ++ held s.writer ++ waiting s.sender
      → s.events ≡ map (λ e. e.0) (s.tried ++ (m, b) ∷ []) ++ [] ++ waiting s.sender
  tried_order s m b h order =
      (rw h at order)
      ∙ ap (λ xs. xs ++ waiting s.sender)
          (sym (names-append s.tried m b)
            ∙ sym (append-nil (map (λ e. e.0) (s.tried ++ (m, b) ∷ []))))

  record Sound (s : Delivery Message) : Type 0 where
    order : s.events ≡ map (λ e. e.0) s.tried ++ held s.writer ++ waiting s.sender
    failed : (written s ≡ map (λ e. e.0) s.tried) ⊎ (s.done ≡ true)
    handler : HandlerOk s.handler s.done
    panic : (s.panicked ≡ false) ⊎ ((s.done ≡ true) × (s.handler ≡ closed) × (s.sender ≢ none))

  Step-Sound : (s t : Delivery Message) → Step s t → s.panicked ≡ false → Sound s → Sound t
  Step-Sound s _ cancels alive v = record {
    order = v.order;
    failed = inr refl;
    handler = HandlerOk-done s.handler s.done v.handler;
    panic = inl alive;
  }
  Step-Sound s _ (happens m h) alive v = record {
    order = ap (λ xs. xs ++ m ∷ []) (rw h at v.order) ∙ simp (append_assoc, append-nil) refl;
    failed = v.failed;
    handler = v.handler;
    panic = inl alive;
  }
  Step-Sound s _ (passes m h k o) alive v = record {
    order =
        (rw (h, k) at v.order)
        ∙ ap (λ xs. xs ++ m ∷ []) (append-nil (names s))
        ∙ sym (append-nil (names s ++ m ∷ []));
    failed = v.failed;
    handler = v.handler;
    panic = inl alive;
  }
  Step-Sound s _ (writes m h) alive v = record {
    order = tried_order s m true h v.order;
    failed = elim v.failed [
      | inl all ↦
          inl (
            taken-append s.tried m
            ∙ ap (λ xs. xs ++ m ∷ []) all
            ∙ sym (names-append s.tried m true))
      | inr over ↦ inr over
    ];
    handler = v.handler;
    panic = inl alive;
  }
  Step-Sound s _ (fails m h) alive v = record {
    order = tried_order s m false h v.order;
    failed = inr refl;
    handler = HandlerOk-done s.handler s.done v.handler;
    panic = inl alive;
  }
  Step-Sound s _ (returns h k) alive v = record {
    order = v.order;
    failed = v.failed;
    handler = k;
    panic = inl alive;
  }
  Step-Sound s _ (closes h) alive v = record {
    order = v.order;
    failed = v.failed;
    handler = rw h at v.handler;
    panic = inl alive;
  }
  Step-Sound s _ (ends h k) alive v = record {
    order = rw h at v.order;
    failed = v.failed;
    handler = v.handler;
    panic = inl alive;
  }
  Step-Sound s _ (panics m h k) alive v = record {
    order = v.order;
    failed = v.failed;
    handler = v.handler;
    panic = inr (rw k at v.handler, k, λ e. cc);
  }

  Steps-Sound : (s : Delivery Message) → Steps start s → Sound s
  Steps-Sound _ stay = record { order = refl; failed = inl refl; handler = tt; panic = inl refl }
  Steps-Sound s (more {t} steps alive last) = Step-Sound t s last alive (Steps-Sound t steps)

  -- Whatever happens, also if writes fail: the messages of the event functions get to `writeMessage` in
  -- their order and each once; at most the one that is in it and the one at its send are still to come.
  -- All that have been through it are on the connection, in that order, or the call is cancelled. An
  -- event function has not panicked, or the call is cancelled, its handler has returned and closed
  -- `reply`, and the message of that function is not written.
  pub delivery_in_order :
      (s : Delivery Message)
      → Steps start s
      → (s.events ≡ map (λ e. e.0) s.tried ++ held s.writer ++ waiting s.sender)
        × ((written s ≡ map (λ e. e.0) s.tried) ⊎ (s.done ≡ true))
        × ((s.panicked ≡ false) ⊎ ((s.done ≡ true) × (s.handler ≡ closed) × (s.sender ≢ none)))
  delivery_in_order s steps = let v = Steps-Sound s steps in (v.order, v.failed, v.panic)

  abbrev Crash : Delivery Message → Type 0
  Crash s = (t : Delivery Message) × Steps s t × (t.panicked ≡ true) × (written t ≡ written s)

  panics_at_once :
      (s : Delivery Message) (m : Message)
      → s.panicked ≡ false
      → s.sender ≡ some m
      → s.handler ≡ closed
      → Crash s
  panics_at_once s m alive waits shut =
      (record s { panicked = true }, more {t = s} stay alive (panics m waits shut), refl, refl)

  -- From any state in which a message is at its send and no event function has panicked, steps lead to
  -- a panic without another write: once the call is cancelled the handler returns, and it does not wait
  -- for the event functions before their channel is closed.
  pub cancelled_panics :
      (s : Delivery Message) (m : Message)
      → s.panicked ≡ false
      → s.sender ≡ some m
      → (t : Delivery Message) × Steps s t × (t.panicked ≡ true) × (written t ≡ written s)
  cancelled_panics s m alive waits = by_handler s.handler refl
    where
      by_handler : (h : Handler) → s.handler ≡ h → Crash s
      by_handler closed at = panics_at_once s m alive waits at
      by_handler returned at = (
        record s { handler = closed; panicked = true },
        more {t = record s { handler = closed }} (more {t = s} stay alive (closes at)) alive
            (panics m waits refl),
        refl,
        refl,
      )
      by_handler awaiting at = (
        record s { done = true; handler = closed; panicked = true },
        more {t = record s { done = true; handler = closed }}
            (more {t = record s { done = true; handler = returned }}
              (more {t = record s { done = true }} (more {t = s} stay alive cancels) alive
                (returns at refl))
              alive (closes refl))
            alive (panics m waits refl),
        refl,
        refl,
      )
