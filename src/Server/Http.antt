-- ===== src/Server/Http.antt =====
-- main.go and the handlers of api/rest: from an HTTP request to the handler that serves it. gin's
-- choice of a route is the parameter `Router`; the handlers read the values that it binds.
use k8s_explore.Base.{String, Option, none, some, List, Result}
use k8s_explore.Base.Dict.{Dict, lookup}
use k8s_explore.KubeClient.{Api}
use k8s_explore.Rest.Environment.{Environments}
use k8s_explore.Rest.Objects
use k8s_explore.Rest.Objects.{Kube}
use k8s_explore.Rest.Resources.{Discovery}
use k8s_explore.Routes.{Verb, Endpoint, Target, Router, routes}
use k8s_explore.Server.{
  Request, list_contexts, list_resources, list_environments, get_object, list_objects,
  update_object, delete_object,
}

-- What the clusters of the contexts answer.
pub record Clusters (api : Api) : Type 1 where
  pub discovery : Discovery api
  pub environments : Environments api
  pub kube : Kube api

pub record HttpRequest (Body : Type 0) : Type 0 where
  pub verb : Verb
  pub path : List String
  pub query : Dict String
  pub body : Body

-- `c.Param(name)` and `c.Query(name)`: a missing one reads as "".
abbrev pub text_of : String → Dict String → String
text_of name values = elim (lookup name values) [ none ↦ "" | some x ↦ x ]

-- What the handlers of objects.go read of a request.
abbrev pub object_request : Dict String → Dict String → Objects.Request
object_request values query = record {
  ctx = text_of "ctx" values;
  group = text_of "group" values;
  version = text_of "version" values;
  resource = text_of "resource" values;
  namespace = text_of "namespace" values;
  name = text_of "name" values;
  field_selector = text_of "fieldSelector" query;
  label_selector = text_of "labelSelector" query;
}

module _ {api : Api} (clusters : Clusters api) where
  abbrev pub Body : Type 0
  Body = Result api.ApiError clusters.kube.Bytes

  -- The request to the handler of a target; the websocket endpoint is none of Rest.
  unfoldable pub request_of : Target → HttpRequest Body → Option (Request api)
  request_of (Endpoint.list_contexts, values) http = some list_contexts
  request_of (Endpoint.list_resources, values) http =
      some (list_resources clusters.discovery (text_of "ctx" values))
  request_of (Endpoint.list_environments, values) http = some (
      list_environments clusters.environments (text_of "fieldSelector" http.query)
        (text_of "labelSelector" http.query))
  request_of (Endpoint.list_objects, values) http =
      some (list_objects clusters.kube (object_request values http.query))
  request_of (Endpoint.get_object, values) http =
      some (get_object clusters.kube (object_request values http.query))
  request_of (Endpoint.update_object, values) http =
      some (update_object clusters.kube (object_request values http.query) http.body)
  request_of (Endpoint.delete_object, values) http =
      some (delete_object clusters.kube (object_request values http.query))
  request_of (Endpoint.connect, values) http = none

  -- The request to a handler that an HTTP request leads to.
  unfoldable pub receive : Router routes → HttpRequest Body → Option (Request api)
  unfolding request_of
  receive router http = elim (router.find http.verb http.path) [
    | none ↦ none
    | some target ↦ request_of target http
  ]
