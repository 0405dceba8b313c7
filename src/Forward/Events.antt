-- ===== src/Forward/Events.antt =====
-- kubefwd/kubefwd.go: what a run of service events asks of the registry.
use k8s_explore.Base.{
  String, str_eq, none, some, List, [], ◌∷◌, ◌++◌, append_assoc, append-nil, ◌≡◌, refl, sym, ap,
  ◌∙◌, arith, All, Bool-cases, inl, inr, if◌then◌else◌,
}
use k8s_explore.Forward.{
  Service, Labels, ServiceFwd, Object, service, other, Request, register, delegate, delete,
  returned, pod_selector, add_service_handler, update_service_handler, Event, added, updated,
  deleted, on_event, watch_service_events,
}

module _ (labels : Labels) (namespace : String) where
  abbrev pub forward : Service → labels.Selector → ServiceFwd
  forward svc selector = record {
    svc = svc;
    namespace = namespace;
    pod_label_selector = labels.to_string selector;
    headless = str_eq svc.cluster_ip "None";
  }

module _ (labels : Labels) {Other : Type 0} (namespace : String) where
  -- The name of a service makes a valid requirement.
  abbrev pub IsNamed : Object Other → Type 0
  IsNamed (service svc) = (s : labels.Selector) × (pod_selector labels svc ≡ some s)
  IsNamed (other obj) = Unit

  -- The object that an event brings, if it brings one, has such a name.
  abbrev pub BringsNamed : Event Other → Type 0
  BringsNamed (added obj) = IsNamed obj
  BringsNamed (updated old_obj new_obj) = IsNamed new_obj
  BringsNamed (deleted obj) = Unit

  -- The requests for an object, and for an event.
  abbrev pub requests_for : Object Other → List (Request Other)
  requests_for (other obj) = delegate obj ∷ []
  requests_for (service svc) = elim (pod_selector labels svc) [
    | none ↦ []
    | some selector ↦
        if str_eq (labels.to_string selector) ""
        then []
        else register (forward labels namespace svc selector) ∷ []
  ]

  abbrev pub requests_of : Event Other → List (Request Other)
  requests_of (added obj) = requests_for obj
  requests_of (updated old_obj new_obj) = delete old_obj ∷ requests_for new_obj
  requests_of (deleted obj) = delete obj ∷ []

  abbrev pub all_requests : List (Event Other) → List (Request Other)
  all_requests [] = []
  all_requests (event ∷ events) = requests_of event ++ all_requests events

  add_service_handler_lem :
      (obj : Object Other) (sent : List (Request Other))
      → IsNamed obj
      → add_service_handler labels namespace obj sent ≡ returned (sent ++ requests_for obj)
  unfolding add_service_handler
  add_service_handler_lem (other obj) sent named = refl
  add_service_handler_lem (service svc) sent (selector, made) =
      elim (Bool-cases (str_eq (labels.to_string selector) "")) [
        | inl blank ↦ ground (arith, made, blank, append-nil sent)
        | inr full ↦ ground (arith, made, full)
      ]

  on_event_lem :
      (event : Event Other) (sent : List (Request Other))
      → BringsNamed event
      → on_event labels namespace event sent ≡ returned (sent ++ requests_of event)
  unfolding on_event update_service_handler
  on_event_lem (added obj) sent named = add_service_handler_lem obj sent named
  on_event_lem (updated old_obj new_obj) sent named =
      add_service_handler_lem new_obj (sent ++ delete old_obj ∷ []) named
      ∙ ap returned (append_assoc sent (delete old_obj ∷ []) (requests_for new_obj))
  on_event_lem (deleted obj) sent named = refl

  -- Where the names of the services that the events bring make valid requirements, the watch does not
  -- panic, and it asks for what each event asks for, in the order of the events: a registration for an
  -- added service with a selector, a deletion and then a registration for a changed one.
  pub watch_service_events_lem :
      (events : List (Event Other)) (sent : List (Request Other))
      → All BringsNamed events
      → watch_service_events labels namespace events sent ≡ returned (sent ++ all_requests events)
  unfolding watch_service_events
  watch_service_events_lem [] sent named = ap returned (sym (append-nil sent))
  watch_service_events_lem (event ∷ events) sent (named, rest) =
      rw (on_event_lem event sent named, watch_service_events)
        (watch_service_events_lem events (sent ++ requests_of event) rest
          ∙ ap returned (append_assoc sent (requests_of event) (all_requests events)))
