-- ===== src/Watch.antt =====
-- api/stream/rpc/kube/objects/watch.go: the call handler `WatchHandler`, which sends the changes of
-- Kubernetes objects to the client. The informer of client-go, the decoding of the parameters and
-- the printers are libraries outside the repository: they are the parameter `Informers`, and the
-- events of one informer, up to the end of the call's context, are an argument. The handler runs
-- between `register` and `unregister` of the dispatcher in Rpc.
pub mod Serving
pub mod Delivery
use k8s_explore.Base.{
  take, ℕ, String, str_eq, Bool, true, false, not, Option, none, some, List, [], ◌∷◌, ◌++◌, Error,
  message, foreign, Result, ok, err, if◌then◌else◌,
}
use Prim.Native.String.{◌++◌ as text_append}
use k8s_explore.KubeClient.{Api, ClientPool, context, deref, dynamic_client_at}
use k8s_explore.Rpc.{Call}

-- `Watch`
abbrev pub watch : String
watch = "kubeObjects.watch"

-- `paramsWatch`
pub record ParamsWatch : Type 0 where
  pub context : String
  pub group : String
  pub version : String
  pub resource : String
  pub namespace : String
  pub name : String
  pub field_selector : String
  pub label_selector : String

-- The two fields of `metav1.ListOptions` that the handler sets.
pub record ListOptions : Type 0 where
  pub field_selector : String
  pub label_selector : String

-- `json.Unmarshal` of the parameters, the type assertion on what an informer delivers, the two
-- printers (what they have written, and their error) and `Error()` of an error.
pub record Informers (api : Api) : Type 1 where
  pub RawMessage : Type 0
  pub Object : Type 0
  pub unmarshal : RawMessage → Result api.ApiError ParamsWatch
  pub is_unstructured : Object → Bool
  pub print_yaml : Object → String × Option String
  pub print_json : Object → String × Option String

-- What the informer calls: `AddFunc`, `UpdateFunc` or `DeleteFunc`.
pub data Event (Object : Type 0) : Type 0 where
  added : Object → Event Object
  updated : Object → Object → Event Object
  deleted : Object → Event Object

-- The values under the key `result` of a reply.
pub record Printed : Type 0 where
  pub yaml : String
  pub json : String
  pub event : String

-- The map that `encodeResponse` marshals; `none` is a missing key.
pub record Response : Type 0 where
  pub id : String
  pub error : Option String
  pub result : Option Printed

-- `if params.Group == "core" { params.Group = "" }`
abbrev pub plain : ParamsWatch → ParamsWatch
plain params = if str_eq params.group "core" then record params { group = "" } else params

-- The function that sets the list options of the informer factory.
unfoldable pub tweak : ParamsWatch → ListOptions → ListOptions
tweak params options = record options {
  field_selector =
      if str_eq params.name ""
      then params.field_selector
      else text_append
          (if str_eq params.field_selector ""
            then params.field_selector
            else text_append params.field_selector ",")
          (text_append "metadata.name=" params.name);
  label_selector = params.label_selector;
}

-- The informer that a call has started: its client, its scope and its list options.
pub record Informer (api : Api) : Type 0 where
  pub client : api.DynamicClient
  pub namespace : String
  pub options : ListOptions → ListOptions
  pub group : String
  pub version : String
  pub resource : String

-- How `Handle` ends: its error, or the panic of a nil pointer.
pub data End (E : Type 0) : Type 0 where
  returned : Option (Error E) → End E
  panicked : End E

pub record Watching (api : Api) : Type 0 where
  pub end : End api.ApiError
  pub pool : ClientPool api
  pub started : Option (Informer api)
  pub replies : List Response

module _ {api : Api} (informers : Informers api) where
  -- `encodeResponse`; `failed` is the text of its argument `err`.
  unfoldable pub encode_response : Call → informers.Object → String → Option String → Response
  encode_response call obj event (some failed) = record {
    id = call.id;
    error = some failed;
    result = none;
  }
  encode_response call obj event none =
      let (yaml, yaml_error) = informers.print_yaml obj in
      let (json, json_error) = informers.print_json obj in
      record {
        id = call.id;
        error = elim json_error [ some e ↦ some e | none ↦ yaml_error ];
        result = some (record { yaml = yaml; json = json; event = event });
      }

  -- What one function of the event handler sends on `reply`.
  unfoldable pub on_event : Call → Event informers.Object → List Response
  unfolding encode_response
  on_event call (added obj) =
      if informers.is_unstructured obj then encode_response call obj "added" none ∷ [] else []
  on_event call (updated _ new_obj) =
      if informers.is_unstructured new_obj
      then encode_response call new_obj "updated" none ∷ []
      else []
  on_event call (deleted obj) =
      if informers.is_unstructured obj then encode_response call obj "deleted" none ∷ [] else []

  unfoldable pub on_events : Call → List (Event informers.Object) → List Response
  unfolding on_event
  on_events call [] = []
  on_events call (e ∷ es) = on_event call e ++ on_events call es

  -- `for _, ok := range … { if !ok { return nil } }`
  abbrev pub all_synced : List Bool → Bool
  all_synced [] = true
  all_synced (true ∷ oks) = all_synced oks
  all_synced (false ∷ oks) = false

  -- `return err`
  abbrev pub refused : Error api.ApiError → ClientPool api → Watching api
  refused e p = record { end = returned (some e); pool = p; started = none; replies = [] }

  -- `WatchHandler.Handle`: `oks` is what `WaitForCacheSync` returns, `events` what the informer calls
  -- the event functions for, and `received` how many of their sends on `reply` are received before the
  -- cancelled call closes it. What becomes of the other sends is in `Delivery`.
  unfoldable pub handle :
      Call
      → informers.RawMessage
      → List Bool
      → List (Event informers.Object)
      → ℕ
      → ClientPool api
      → Watching api
  unfolding tweak on_events
  handle call raw oks events received p =
      if not (str_eq call.method watch)
      then refused (message "call has been miss dispatched") p
      else elim (informers.unmarshal raw) [
        | err e ↦ refused (foreign e) p
        | ok decoded ↦
            let params = plain decoded in
            elim (context params.context p) [
              | err e ↦ refused e p
              | ok r ↦ elim (deref (some r) p) [
                | none ↦ record { end = panicked; pool = p; started = none; replies = [] }
                | some kctx ↦
                    let (client, p') = dynamic_client_at r kctx p in
                    elim client [
                      | err e ↦ refused e p'
                      | ok d ↦ record {
                        end = returned none;
                        pool = p';
                        started = some (record {
                          client = d;
                          namespace = params.namespace;
                          options = tweak params;
                          group = params.group;
                          version = params.version;
                          resource = params.resource;
                        });
                        replies =
                            if all_synced oks then take received (on_events call events) else [];
                      }
                    ]
              ]
            ]
      ]
