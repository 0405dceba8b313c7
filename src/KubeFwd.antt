-- ===== src/KubeFwd.antt =====
-- kubefwd/kube/utils.go: which ports of a service are tunnelled, and to where. `itoa` is the
-- decimal text of a port (`strconv.Itoa`).
pub mod Tunnelled
pub mod Order
use k8s_explore.Base.{String, str_eq, Option, none, some, List, [], ◌∷◌, map, ℕ, if◌then◌else◌}
use k8s_explore.Base.Dict.{Dict, lookup, insert}
use Prim.Native.String.{◌++◌ as text_append}

-- `ServiceContext` of kubefwd/kube/kube.go, with the port number of each `v1.ServicePort`.
pub record ServiceContext : Type 0 where
  pub service_name : String
  pub label_selector : Dict String
  pub ports : List ℕ

-- `Service` of frp/models/frpc_client_config.go
pub record Service : Type 0 where
  pub type : String
  pub remote_port : String
  pub local_ip : String
  pub local_port : String

-- `ServicePair` of frp/frpc_client.go
pub record ServicePair : Type 0 where
  pub name : String
  pub service : Service

-- `KubeTunnelResourceSpec` of kubetunnel/kubetunnel_resource.go, with the values of its `Ports`.
pub record KubeTunnelResourceSpec : Type 0 where
  pub ports : List String
  pub service_name : String
  pub pod_labels : Dict String

-- `KubeTunnelServiceName`
abbrev pub kube_tunnel_service_name : KubeTunnelResourceSpec → String
kube_tunnel_service_name v = text_append "kubetunnel-" v.service_name

-- `constants.KubetunnelSlug`
abbrev pub kubetunnel_slug : String
kubetunnel_slug = "kubetunnel"

-- `m[key]`: a missing key reads as "".
abbrev pub read : String → Dict String → String
read key m = elim (lookup key m) [ none ↦ "" | some v ↦ v ]

-- `for k, v := range remotePortByLocal { localPortByRemote[v] = k }`
unfoldable pub invert : Dict String → Dict String → Dict String
invert [] done = done
invert (e ∷ es) done = invert es (insert e.1 e.0 done)

-- `append`, for the pairs that are not nil.
abbrev pub keep_some {ℓ} : {A : Type ℓ} → List (Option A) → List A
keep_some [] = []
keep_some (none ∷ xs) = keep_some xs
keep_some (some x ∷ xs) = x ∷ keep_some xs

module _ (itoa : ℕ → String) where
  -- `ToKubeTunnelResourceSpec`: the spec, and the map of labels, the caller's, into which it writes.
  -- A nil map (`none`) panics at the write.
  unfoldable pub to_kube_tunnel_resource_spec :
      ServiceContext → Option (Dict String) → Option (KubeTunnelResourceSpec × Dict String)
  to_kube_tunnel_resource_spec ctx none = none
  to_kube_tunnel_resource_spec ctx (some pod_labels) =
      let labels = insert kubetunnel_slug ctx.service_name pod_labels in
      some (
        record { ports = map itoa ctx.ports; service_name = ctx.service_name; pod_labels = labels },
        labels,
      )

  -- The function that `Select` applies to each port; `none` is nil.
  unfoldable pub pair_of : String → Dict String → ServiceContext → ℕ → Option ServicePair
  pair_of local_ip local_port_by_remote ctx kube_port =
      let local_port = read (itoa kube_port) local_port_by_remote in
      if str_eq local_port ""
      then none
      else some (record {
        name = text_append ctx.service_name (text_append "-" (itoa kube_port));
        service = record {
          type = "tcp";
          remote_port = itoa kube_port;
          local_ip = local_ip;
          local_port = local_port;
        };
      })

  -- `ToFRPClientPairs`
  unfoldable pub to_frp_client_pairs : String → Dict String → ServiceContext → List ServicePair
  unfolding invert pair_of
  to_frp_client_pairs local_ip remote_port_by_local ctx =
      keep_some (map (pair_of local_ip (invert remote_port_by_local []) ctx) ctx.ports)
