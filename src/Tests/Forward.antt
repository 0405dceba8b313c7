-- ===== src/Tests/Forward.antt =====
-- kubefwd/kubefwd.go at a concrete implementation of the label selectors.
use k8s_explore.Base.{
  ℕ, true, false, ok, err, ◌⊎◌, String, str_eq, Bool, not, ◌&&◌, none, some, List, [], ◌∷◌, ◌++◌,
  ◌≡◌, refl, arith, if◌then◌else◌,
}
use k8s_explore.Base.Dict.{Dict}
use k8s_explore.Forward.{
  updated, deleted, other, delete, watch_service_events, Service, Labels, ServiceFwd, service,
  register, returned, agent_label, excludes_agent, add_service_handler,
}
use k8s_explore.Cluster.Connect.{Loaders}
use k8s_explore.Forward.Launch.{Platform}
use k8s_explore.Forward.Watching.{
  ListOptions, watch_services, watch_func, stderr, stdout, write_log,
}
use k8s_explore.Tests.Frp.{listed_hosts, hosts_file}
use k8s_explore.Forward.Selected.{has_label, selected, LabelLaws, add_service_handler-pod_selector}

-- A selector is a set and the pairs that it excludes, the last one first.
abbrev simple_labels : Labels
simple_labels = record {
  Selector = Dict String × List (String × String);
  Requirement = String × String;
  as_selector = λ set. (set, []);
  not_equals = λ key value. if str_eq value "" then none else some (key, value);
  add = λ s r. (s.0, r ∷ s.1);
  to_string = λ s. elim s.1 [ [] ↦ elim s.0 [ [] ↦ "" | _ ∷ _ ↦ "set" ] | _ ∷ _ ↦ "set,others" ];
}

simple_matches : Dict String → List (String × String) → Dict String → Bool
simple_matches set [] pod = selected set pod
simple_matches set (r ∷ rs) pod = simple_matches set rs pod && not (has_label r.0 r.1 pod)

simple_labels-LabelLaws : LabelLaws simple_labels
unfolding simple_matches
simple_labels-LabelLaws = record {
  matches = λ s pod. simple_matches s.0 s.1 pod;
  matches_set = λ set pod. refl;
  matches_add = λ s key value r pod h. added s.0 s.1 key value r pod h;
  add_text = λ s r e. cc;
}
  where
    added :
        (set : Dict String) (rs : List (String × String)) (key value : String) (r : String × String)
        (pod : Dict String)
        → simple_labels.not_equals key value ≡ some r
        → simple_matches set (r ∷ rs) pod
          ≡ (simple_matches set rs pod && not (has_label key value pod))
    added set rs key value r pod h = ground (arith, h)

abbrev shop : Service
shop = record {
  name = "shop";
  namespace = "dev";
  selector = ("app", "shop") ∷ [];
  cluster_ip = "10.1.1.1";
}

abbrev bare : Service
bare = record { name = "bare"; namespace = "dev"; selector = []; cluster_ip = "None" }

add_service_handler-pod_selector_example :
    (selector : simple_labels.Selector) × ((pod : Dict String)
      → simple_labels-LabelLaws.matches selector pod ≡ (
          selected (("app", "shop") ∷ []) pod
          && not (excludes_agent shop && has_label agent_label "shop" pod)))
    × (((excludes_agent shop ≡ false)
          × (simple_labels.to_string selector ≡ "")
          × (add_service_handler simple_labels {Other = Unit {0}} "dev" (service shop) []
              ≡ returned []))
        ⊎ ((fwd : ServiceFwd) × (fwd.svc ≡ shop)
            × (fwd.namespace ≡ "dev")
            × (fwd.pod_label_selector ≡ simple_labels.to_string selector)
            × (add_service_handler simple_labels {Other = Unit {0}} "dev" (service shop) []
                ≡ returned ([] ++ register fwd ∷ []))))
add_service_handler-pod_selector_example =
    add_service_handler-pod_selector simple_labels simple_labels-LabelLaws shop
      (agent_label, "shop") refl "dev" []

-- A service without a selector is registered.
bare_registered :
    (fwd : ServiceFwd) × (add_service_handler simple_labels {Other = Unit {0}} "dev"
        (service bare)
        []
      ≡ returned (register fwd ∷ []))
unfolding add_service_handler
bare_registered = (_, refl)

-- A cluster that the program runs in.
abbrev inside : Loaders
inside = record {
  Failure = String;
  Config = ℕ;
  Client = ℕ;
  ClientConfig = ℕ;
  in_cluster_config = ok 4;
  new_for_config = λ config. ok config;
  deferred = 0;
  load_from_file = λ path. err "no file";
  client_config = λ c. ok c;
  namespace = λ c. "default";
}

abbrev system : Platform listed_hosts
system = record {
  Failure = String;
  RestClient = ℕ;
  new_hosts_default = ok hosts_file;
  backup_host_file = λ file. ok "backup";
  get_rest_client = some 8;
}

-- A changed service is deleted and registered again.
two_events :
    watch_service_events simple_labels {Other = ℕ} "dev"
      (updated (service shop) (service shop) ∷ deleted (other 7) ∷ [])
      []
    ≡ returned (
        delete (service shop)
        ∷ register (record {
          svc = shop;
          namespace = "dev";
          pod_label_selector = "set,others";
          headless = false;
        })
        ∷ delete (other 7)
        ∷ [])
unfolding watch_service_events
two_events = refl

-- The options of `Execute` select nothing, whatever the informer asks for.
abbrev no_options : ListOptions String
no_options = record { field_selector = ""; label_selector = ""; watch = false; rest = "" }

abbrev asked_options : ListOptions String
asked_options = record no_options { label_selector = "app=web"; rest = "version 7" }

watch_func-asked :
    watch_func "dev" no_options asked_options
    ≡ watch_services "dev" (record no_options { watch = true; rest = "version 7" })
watch_func-asked = refl

write_log-levels :
    (write_log "level=warning msg=late" ≡ stderr) × (write_log "level=info msg=ok" ≡ stdout)
write_log-levels = (refl, refl)
