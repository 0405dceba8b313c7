-- ===== src/Tests/Watch.antt =====
-- api/stream/rpc/kube/objects/watch.go at concrete inputs.
use k8s_explore.Base.{
  take, ℕ, ◌==◌, String, true, not, ◌≡◌, refl, some, none, List, [], ◌∷◌, ok, if◌then◌else◌,
}
use k8s_explore.KubeClient.{context}
use k8s_explore.KubeClient.Caching.{ClientOf}
use k8s_explore.Rpc.{Call}
use k8s_explore.Watch.{
  ParamsWatch, Informers, Event, added, updated, deleted, plain, tweak, returned, encode_response,
  handle,
}
use k8s_explore.Watch.Serving.{replies_to, informer, handle_serves}
use k8s_explore.Tests.World.{small_api, two}
use k8s_explore.Tests.Pool.{two-IsValid}

abbrev pods : ParamsWatch
pods = record {
  context = "b";
  group = "core";
  version = "v1";
  resource = "pods";
  namespace = "dev";
  name = "web";
  field_selector = "status.phase=Running";
  label_selector = "app=web";
}

-- The object 0 is not unstructured, and the object 9 has no YAML.
abbrev small_informers : Informers small_api
small_informers = record {
  RawMessage = String;
  Object = ℕ;
  unmarshal = λ _. ok pods;
  is_unstructured = λ n. not (n == 0);
  print_yaml = λ n. if n == 9 then ("", some "no yaml") else ("yaml", none);
  print_json = λ _. ("json", none);
}

abbrev call : Call
call = record { id = "w"; method = "kubeObjects.watch" }

abbrev events : List (Event ℕ)
events = added 1 ∷ added 0 ∷ updated 1 2 ∷ deleted 2 ∷ []

-- A reply may have both an error and a result.
error_and_result : encode_response small_informers call 9 "added" none ≡ record {
  id = "w";
  error = some "no yaml";
  result = some (record { yaml = ""; json = "json"; event = "added" });
}
unfolding encode_response
error_and_result = refl

selector_text :
    (tweak pods (record { field_selector = "x"; label_selector = "y" })).field_selector
    ≡ "status.phase=Running,metadata.name=web"
unfolding tweak
selector_text = refl

handle_serves_example :
    (d : ℕ) × ClientOf "b" two d
    × (handle small_informers call "{}" (true ∷ []) events 2 two ≡ record {
      end = returned none;
      pool = two;
      started = some (informer small_informers d (plain pods));
      replies = take 2 (replies_to small_informers call events);
    })
unfolding context
handle_serves_example =
    handle_serves small_informers call "{}" events 2 two two-IsValid (true ∷ []) pods 1 refl refl
      refl
