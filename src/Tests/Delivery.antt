-- ===== src/Tests/Delivery.antt =====
-- watch.go and `dispatchMessage`: a watch that is cancelled while an event waits.
use k8s_explore.Base.{String, true, false, none, some, [], ◌∷◌, ◌++◌, ◌≡◌, ◌≢◌, ◌⊎◌, refl}
use k8s_explore.Watch.Delivery.{
  Delivery, written, closed, writing, happens, passes, Steps, stay, more, start,
}
use k8s_explore.Watch.Delivery.Panics.{held, waiting, delivery_in_order, cancelled_panics}

-- "added" is being written, and "updated" waits.
abbrev busy : Delivery String
busy = record start {
  sender = some "updated";
  writer = writing "added";
  events = "added" ∷ "updated" ∷ [];
}

to_busy : Steps start busy
to_busy =
    more {t = record start { writer = writing "added"; events = "added" ∷ [] }}
      (more {t = record start { sender = some "added"; events = "added" ∷ [] }}
        (more {t = start} stay refl (happens "added" refl)) refl (passes "added" refl refl refl))
      refl (happens "updated" refl)

delivery_in_order_example :
    (busy.events ≡ [] ++ held (writing "added") ++ waiting (some "updated"))
    × ((written busy ≡ []) ⊎ (busy.done ≡ true))
    × ((busy.panicked ≡ false)
        ⊎ ((busy.done ≡ true) × (busy.handler ≡ closed) × (busy.sender ≢ none)))
delivery_in_order_example = delivery_in_order busy to_busy

cancelled_panics_example :
    (t : Delivery String) × Steps busy t × (t.panicked ≡ true) × (written t ≡ [])
cancelled_panics_example = cancelled_panics busy "updated" refl refl
