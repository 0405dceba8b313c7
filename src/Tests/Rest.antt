-- ===== src/Tests/Rest.antt =====
-- The REST handlers at concrete inputs.
use k8s_explore.Base.{
  true, false, ℕ, String, str_eq, ◌≡◌, refl, some, none, List, [], ◌∷◌, ◌++◌, map, ok, err,
  if◌then◌else◌, arith, eq_iff, inl, inr,
}
use k8s_explore.KubeClient.{Api, Context, ClientPool, context, contexts, unknown_context}
use k8s_explore.Rest.Gin.{Flow, returned, panicked, World}
use k8s_explore.Rest.Objects.{
  Request, Kube, Body, Call, message, object, gvr_of, handle_get, handle_list, handle_update,
  handle_delete,
}
use k8s_explore.Rest.Objects.Answers.{answer, served}
use k8s_explore.Rest.Objects.Faults.{replied, unknown_context_panics}
use k8s_explore.Rest.Objects.Updates.{body_held, Updated, handle_update_total}
use k8s_explore.Rest.Contexts
use k8s_explore.Rest.Contexts.Listing.{current_count, current_name, Describes}
use k8s_explore.Rest.Contexts.Order.{visited_as, list_contexts_order}
use mathlib.Core.List.{Permᴰ}
use k8s_explore.Base.Dict.{Dict, String-cases}
use k8s_explore.Base.Orders.{OneMap}
use k8s_explore.Rest.Resources
use k8s_explore.Rest.Resources.{Discovery, list_resources_lem, listing}
use k8s_explore.Rest.Environment.Types.{Environment as EnvironmentObject}
use k8s_explore.Rest.Environment.{Environments}
use k8s_explore.Tests.World.{small_api, two}
use k8s_explore.Tests.Pool.{two-IsValid}

-- One object, "web"; a body is YAML if it is not "{", and a list if it is "list".
abbrev pub lab : Kube small_api
lab = record {
  Object = String;
  Bytes = String;
  RuntimeObject = String;
  get = λ d gvr ns name. if str_eq name "web" then ok "web" else err "missing";
  list = λ d gvr ns fields labels. ok ("web" ∷ []);
  update = λ d gvr ns obj. (none, some "missing");
  delete = λ d gvr ns name. if str_eq name "web" then none else some "missing";
  is_not_found = λ e. str_eq e "missing";
  to_json = λ b. if str_eq b "{" then err "no yaml" else ok b;
  decode = λ b. if str_eq b "x" then err "no object" else ok b;
  as_unstructured = λ o. if str_eq o "list" then none else some o;
}

abbrev pub ask : String → String → Request
ask ctx name = record {
  ctx = ctx;
  group = "core";
  version = "v1";
  resource = "pods";
  namespace = "dev";
  name = name;
  field_selector = "";
  label_selector = "";
}

abbrev idle : World small_api (Body lab) (Call lab)
idle = record { pool = two; replies = []; calls = [] }

get_web :
    handle_get (ask "a" "web") idle
    ≡ served idle
        (Call.get (gvr_of (ask "a" "web")) "dev" "web")
        (answer {kube = lab} 200 (object (some "web")))
unfolding handle_get k8s_explore.KubeClient.context k8s_explore.KubeClient.deref
    k8s_explore.KubeClient.dynamic_client_at
get_web = refl

unknown_context_panics_example :
    let fault : Flow (Unit {0}) × World small_api (Body lab) (Call lab) = (
      panicked,
      replied {kube = lab}
          (ask "z" "web")
          idle
          (answer {kube = lab} 404 (message "unknown context")),
    ) in
    (handle_get {kube = lab} (ask "z" "web") idle ≡ fault)
    × (handle_list {kube = lab} (ask "z" "web") idle ≡ fault)
    × (handle_update {kube = lab} (ask "z" "web") (ok "db") idle ≡ fault)
    × (handle_delete {kube = lab} (ask "z" "web") idle ≡ fault)
unfolding context
unknown_context_panics_example =
    unknown_context_panics {kube = lab} (ask "z" "web") idle unknown_context (ok "db") "db" refl
      refl

-- A list is answered by 500, and then a nil object is sent.
handle_update_total_example :
    Updated {kube = lab} (ask "b" "db") idle (ok "list") (body_held lab (ok "list"))
handle_update_total_example =
    handle_update_total {kube = lab} (ask "b" "db") idle (ok "list") two-IsValid

list_held : body_held lab (ok "list") ≡ some none
list_held = refl

abbrev listed_before : World small_api (List Contexts.ContextInfo) (Unit {0})
listed_before = record { pool = two; replies = []; calls = [] }

-- The map of the pool, from "b" to "a".
abbrev from_b : Dict ℕ
from_b = ("b", 1) ∷ ("a", 0) ∷ []

from_b-OneMap : OneMap two.contexts from_b
from_b-OneMap = record {
  keys = two-IsValid.keys;
  other_keys = (refl, (refl, tt));
  same = λ key. elim (String-cases key "a") [
    | inl here ↦ rw here refl
    | inr other ↦ ground (arith, eq_iff key "a")
  ];
}

list_contexts_order_example :
    (items : List Contexts.ContextInfo) × (items' : List Contexts.ContextInfo)
    × (Contexts.handle_list listed_before ≡ (
      returned tt,
      record listed_before { replies = [] ++ record { status = 200; body = items } ∷ [] },
    ))
    × (Contexts.handle_list (record listed_before { pool = visited_as from_b two }) ≡ (
      returned tt,
      record {
        pool = visited_as from_b two;
        replies = [] ++ record { status = 200; body = items' } ∷ [];
        calls = [];
      },
    ))
    × Describes two.store (current_name two) two.contexts items
    × (map (λ i. i.name) items ≡ map (λ e. e.0) two.contexts)
    × (current_count items ≡ 1)
    × Permᴰ items items'
list_contexts_order_example = list_contexts_order listed_before from_b two-IsValid from_b-OneMap

abbrev pub disco : Discovery small_api
disco = record { ResourceList = String; server_preferred_resources = λ d. ok ("pods" ∷ []) }

abbrev asked : World small_api (Resources.Body disco) (Unit {0})
asked = record { pool = two; replies = []; calls = [] }

abbrev environment : String → EnvironmentObject String String
environment name = record {
  type_meta = "v1alpha1";
  object_meta = name;
  spec = record {
    write_connection_secret_to_ref = record { name = "" };
    parameters = record { install_infra = true; frontend = record { debug = false } };
    composition_selector = record { match_labels = [] };
    resource_ref = none;
  };
  status = record { conditions = [] };
}

abbrev pub envs : Environments small_api
envs = record {
  Item = String;
  TypeMeta = String;
  ObjectMeta = String;
  list = λ d fields labels. ok ("dev" ∷ "bad" ∷ []);
  from_unstructured = λ i. if str_eq i "bad" then err "not an environment" else ok (environment i);
}
