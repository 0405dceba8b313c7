-- ===== src/Forward.antt =====
-- kubefwd/kubefwd.go: the handlers of the service events. Label selectors, the registry of forwarded
-- services and the delete handler are libraries outside the repository: selectors are the parameter
-- `Labels`, and what the handlers ask of the registry is recorded in order. The informer's
-- events are a list; the wait for the tunnel is in Frp/Polling.
pub mod Selected
pub mod Launch
pub mod Events
pub mod Watching
use k8s_explore.Base.{
  ℕ, String, str_eq, Bool, true, false, not, ◌&&◌, Option, none, some, List, [], ◌∷◌, ◌++◌, Result,
  ok, err, if◌then◌else◌,
}
use k8s_explore.Base.Dict.{Dict, lookup}
use text.Mathlib.Text.{starts_with}
use k8s_explore.KubeFwd.{kubetunnel_slug}

-- What the handlers read of a `v1.Service`.
pub record Service : Type 0 where
  pub name : String
  pub namespace : String
  pub selector : Dict String
  pub cluster_ip : String

-- The package `labels`: the selector of a set, `NewRequirement` with the operator `NotEquals` and one
-- value, `Add` of one requirement, and `String`.
pub record Labels : Type 1 where
  pub Selector : Type 0
  pub Requirement : Type 0
  pub as_selector : Dict String → Selector
  pub not_equals : String → String → Option Requirement
  pub add : Selector → Requirement → Selector
  pub to_string : Selector → String

-- The fields of `ServiceFWD` that depend on the service.
pub record ServiceFwd : Type 0 where
  pub svc : Service
  pub namespace : String
  pub pod_label_selector : String
  pub headless : Bool

-- An object of an event: a service, or a value of another type (`Other`).
pub data Object (Other : Type 0) : Type 0 where
  service : Service → Object Other
  other : Other → Object Other

-- What the handlers ask for: `fwdsvcregistry.Add`, the library's own add handler, its delete handler.
pub data Request (Other : Type 0) : Type 0 where
  register : ServiceFwd → Request Other
  delegate : Other → Request Other
  delete : Object Other → Request Other

pub data Run (Other : Type 0) : Type 0 where
  returned : List (Request Other) → Run Other
  panicked : List (Request Other) → Run Other

-- `fmt.Sprintf("%s-app", constants.KubetunnelSlug)`
abbrev pub agent_label : String
agent_label = "kubetunnel-app"

-- `containsKey == false && strings.HasPrefix(svc.Name, …) == false`
abbrev pub has_key : String → Dict String → Bool
has_key key m = elim (lookup key m) [ none ↦ false | some _ ↦ true ]

unfoldable pub excludes_agent : Service → Bool
excludes_agent svc =
    not (has_key kubetunnel_slug svc.selector) && not (starts_with svc.name kubetunnel_slug)

module _ (labels : Labels) where
  -- The selector of the pods that are forwarded for a service; `none` is the panic.
  unfoldable pub pod_selector : Service → Option labels.Selector
  unfolding excludes_agent
  pod_selector svc =
      if excludes_agent svc
      then elim (labels.not_equals agent_label svc.name) [
        | none ↦ none
        | some not_agent ↦ some (labels.add (labels.as_selector svc.selector) not_agent)
      ]
      else some (labels.as_selector svc.selector)

module _ (labels : Labels) {Other : Type 0} (namespace : String) where
  -- `AddServiceHandler`, after the requests made so far; `namespace` is `opts.Namespace`.
  unfoldable pub add_service_handler : Object Other → List (Request Other) → Run Other
  unfolding pod_selector
  add_service_handler (other obj) sent = returned (sent ++ delegate obj ∷ [])
  add_service_handler (service svc) sent = elim (pod_selector labels svc) [
    | none ↦ panicked sent
    | some selector ↦
        if str_eq (labels.to_string selector) ""
        then returned sent
        else returned (
            sent
            ++ register (record {
              svc = svc;
              namespace = namespace;
              pod_label_selector = labels.to_string selector;
              headless = str_eq svc.cluster_ip "None";
            })
              ∷ [])
  ]

  -- `UpdateServiceHandler`
  unfoldable pub update_service_handler :
      Object Other → Object Other → List (Request Other) → Run Other
  unfolding add_service_handler
  update_service_handler old_obj new_obj sent =
      add_service_handler new_obj (sent ++ delete old_obj ∷ [])

-- An event of the informer.
pub data Event (Other : Type 0) : Type 0 where
  added : Object Other → Event Other
  updated : Object Other → Object Other → Event Other
  deleted : Object Other → Event Other

module _ (labels : Labels) {Other : Type 0} (namespace : String) where
  -- The `ResourceEventHandlerFuncs` of `watchServiceEvents`.
  unfoldable pub on_event : Event Other → List (Request Other) → Run Other
  unfolding add_service_handler update_service_handler
  on_event (added obj) sent = add_service_handler labels namespace obj sent
  on_event (updated old_obj new_obj) sent =
      update_service_handler labels namespace old_obj new_obj sent
  on_event (deleted obj) sent = returned (sent ++ delete obj ∷ [])

  -- The events of `watchServiceEvents`, one after another; a panic ends the process.
  unfoldable pub watch_service_events : List (Event Other) → List (Request Other) → Run Other
  unfolding on_event
  watch_service_events [] sent = returned sent
  watch_service_events (event ∷ events) sent = elim (on_event event sent) [
    | panicked sent' ↦ panicked sent'
    | returned sent' ↦ watch_service_events events sent'
  ]
