-- ===== src/Cluster/Upsert.antt =====
-- kubefwd/kube/kube.go: `CreateKubeTunnelResource`. The REST client, which reads and writes a store,
-- and encoding/json are the parameter `Rest`. What a write returns besides its error is only logged.
use k8s_explore.Base.{String, Option, none, some, Result, ok, err}
use Prim.Native.String.{◌++◌ as text_append}

-- `KubeTunnelResource` of the package models of kube-tunnel, with the two fields of its metadata that
-- are set.
pub record KubeTunnelResource (Spec : Type 0) : Type 0 where
  pub kind : String
  pub api_version : String
  pub name : String
  pub resource_version : String
  pub spec : Spec

-- `Spec` and `service_name` are `KubeTunnelResourceSpec` and its method `KubeTunnelServiceName`.
pub record Rest : Type 1 where
  pub Spec : Type 0
  pub service_name : Spec → String
  pub Failure : Type 0
  pub Store : Type 0
  pub Bytes : Type 0
  pub get : String → Store → Result Failure Bytes
  pub post : String → Bytes → Store → Option Failure × Store
  pub put : String → Bytes → Store → Option Failure × Store
  pub marshal : KubeTunnelResource Spec → Result Failure Bytes
  pub unmarshal : Bytes → Result Failure (KubeTunnelResource Spec)

pub data Fault (E : Type 0) : Type 0 where
  foreign : E → Fault E
  unreadable : (name : String) → Fault E

-- `constants.KubeTunnelKind` and `constants.KubeTunnelApiVersion`
abbrev pub kube_tunnel_kind : String
kube_tunnel_kind = "Kubetunnel"

abbrev pub kube_tunnel_api_version : String
kube_tunnel_api_version = "application.dcode.tech/v1"

-- The URL of the resources of a namespace, and of one resource.
unfoldable pub resources_url : String → String
resources_url namespace = text_append "/apis/" (
    text_append kube_tunnel_api_version
      (text_append "/namespaces/" (text_append namespace "/kubetunnels")))

unfoldable pub resource_url : String → String → String
resource_url url name = text_append url (text_append "/" name)

abbrev pub as_fault : {E S : Type 0} → Option E × S → Option (Fault E) × S
as_fault (none, s) = (none, s)
as_fault (some e, s) = (some (foreign e), s)

module _ (rest : Rest) where
  abbrev pub new_resource : rest.Spec → KubeTunnelResource rest.Spec
  new_resource spec = record {
    kind = kube_tunnel_kind;
    api_version = kube_tunnel_api_version;
    name = rest.service_name spec;
    resource_version = "";
    spec = spec;
  }

  -- `CreateKubeTunnelResource`, in the namespace of `Kube`.
  unfoldable pub create_kube_tunnel_resource :
      String → rest.Spec → rest.Store → Option (Fault rest.Failure) × rest.Store
  create_kube_tunnel_resource namespace spec s =
      let resource = new_resource spec in
      let url = resources_url namespace in
      let path = resource_url url resource.name in
      elim (rest.get path s) [
        | err _ ↦ elim (rest.marshal resource) [
          | err e ↦ (some (foreign e), s)
          | ok body ↦ as_fault (rest.post url body s)
        ]
        | ok data_ ↦ elim (rest.unmarshal data_) [
          | err _ ↦ (some (unreadable resource.name), s)
          | ok old ↦
              elim (rest.marshal (record resource { resource_version = old.resource_version })) [
                | err e ↦ (some (foreign e), s)
                | ok body ↦ as_fault (rest.put path body s)
              ]
        ]
      ]
