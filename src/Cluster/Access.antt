-- ===== src/Cluster/Access.antt =====
-- kubefwd/kube/kube.go: the methods of `Kube` that read from the cluster.
use k8s_explore.Base.{
  ℕ, String, str_eq, Bool, true, false, Option, none, some, List, [], ◌∷◌, ◌++◌, Result, ok, err,
  if◌then◌else◌,
}
use k8s_explore.Base.Dict.{Dict}
use text.Mathlib.Text.{starts_with}
use k8s_explore.KubeFwd.{ServiceContext, kubetunnel_slug}

-- `ResourceAttributes`, as far as the check sets it.
pub record Permission : Type 0 where
  pub verb : String
  pub resource : String

-- An error of a library, or one that this file makes.
pub data Fault (E : Type 0) : Type 0 where
  foreign : E → Fault E
  no_pods : (host namespace selector : String) → Fault E
  no_service : (namespace name host : String) → Fault E
  no_forward : E → Fault E
  no_connection : (host : String) → Fault E
  no_review : (host : String) → E → Fault E
  missing_permission : (host namespace : String) → Permission → Fault E

-- The calls of the clientset, `strconv.Atoi`, and the start of a port forward for the pods that a set
-- of labels selects. A `ServiceContext` of the package servicecontext of kube-tunnel, which this file
-- makes, has the fields of the one that it declares.
pub record Clientset : Type 1 where
  pub Failure : Type 0
  pub validated_selector : Dict String → Result Failure String
  pub list_pods : String → String → Result Failure (List (Dict String))
  pub get_service : String → String → Result Failure ServiceContext
  pub list_services : String → Result Failure (List String)
  pub review : Permission → Result Failure Bool
  pub server_version : Result Failure String
  pub atoi : String → Result Failure ℕ
  pub start_forward : String → Dict String → ℕ → Result Failure ℕ

-- `Kube`, with the host of its configuration.
pub record Kube : Type 0 where
  pub host : String
  pub namespace : String

-- The permissions that `RBACCheck` asks for.
abbrev pub required_permissions : List Permission
required_permissions =
    record { verb = "list"; resource = "pods" }
    ∷ record { verb = "get"; resource = "pods" }
    ∷ record { verb = "watch"; resource = "pods" }
    ∷ record { verb = "get"; resource = "services" }
    ∷ []

-- The loop over the services, by their names.
abbrev pub without_tunnels : List String → List String → List String
without_tunnels done [] = done
without_tunnels done (name ∷ names) =
    without_tunnels (if starts_with name kubetunnel_slug then done else done ++ name ∷ []) names

module _ (api : Clientset) (k : Kube) where
  -- `GetPodLabelsByLabelSelector`
  unfoldable pub get_pod_labels_by_label_selector :
      String → Dict String → Result (Fault api.Failure) (Dict String)
  get_pod_labels_by_label_selector namespace selectors = elim (api.validated_selector selectors) [
    | err e ↦ err (foreign e)
    | ok selector ↦ elim (api.list_pods namespace selector) [
      | err e ↦ err (foreign e)
      | ok pods ↦ elim pods [ [] ↦ err (no_pods k.host namespace selector) | pod ∷ _ ↦ ok pod ]
    ]
  ]

  -- `GetServiceContextWithNamespace`
  unfoldable pub get_service_context_with_namespace :
      String → String → Result (Fault api.Failure) ServiceContext
  get_service_context_with_namespace name namespace =
      elim (api.get_service (if str_eq namespace "" then k.namespace else namespace) name) [
        | err _ ↦ err (no_service k.namespace name k.host)
        | ok svc ↦ ok svc
      ]

  -- `GetServiceContext`
  unfoldable pub get_service_context : String → Result (Fault api.Failure) ServiceContext
  unfolding get_service_context_with_namespace
  get_service_context name = get_service_context_with_namespace name k.namespace

  -- `ListServiceNamesWithoutKubeTunnel`
  unfoldable pub list_service_names_without_kube_tunnel : Result (Fault api.Failure) (List String)
  list_service_names_without_kube_tunnel = elim (api.list_services k.namespace) [
    | err e ↦ err (foreign e)
    | ok names ↦ ok (without_tunnels [] names)
  ]

  -- `PortForward`
  unfoldable pub port_forward : String → String → Result (Fault api.Failure) ℕ
  unfolding get_service_context
  port_forward service_name port = elim (get_service_context service_name) [
    | err e ↦ err e
    | ok service ↦ elim (api.atoi port) [
      | err e ↦ err (foreign e)
      | ok port_int ↦ elim (api.start_forward k.namespace service.label_selector port_int) [
        | err e ↦ err (no_forward e)
        | ok listening_port ↦ ok listening_port
      ]
    ]
  ]

  -- `ConnectivityCheck`
  unfoldable pub connectivity_check : Option (Fault api.Failure)
  connectivity_check = elim api.server_version [ err _ ↦ some (no_connection k.host) | ok _ ↦ none ]

  -- The loop of `RBACCheck`.
  unfoldable pub check_permissions : List Permission → Option (Fault api.Failure)
  check_permissions [] = none
  check_permissions (perm ∷ perms) = elim (api.review perm) [
    | err e ↦ some (no_review k.host e)
    | ok allowed ↦ elim allowed [
      | false ↦ some (missing_permission k.host k.namespace perm)
      | true ↦ check_permissions perms
    ]
  ]

  -- `RBACCheck`
  unfoldable pub rbac_check : Option (Fault api.Failure)
  unfolding check_permissions
  rbac_check = check_permissions required_permissions
