-- ===== src/Tests/World.antt =====
-- A small world outside the repository: configurations, clients and errors are numbers and texts.
-- No client can be made from the configuration 0, and the cluster of the client 9 does not answer.
use k8s_explore.Base.{ℕ, ◌==◌, String, str_eq, none, some, [], ◌∷◌, ok, err, if◌then◌else◌}
use k8s_explore.KubeClient.{Api, Context, ClientPool}
use k8s_explore.Startup.{RawContext, RawConfig, Loader}

abbrev pub small_api : Api
small_api = record {
  Config = ℕ;
  DynamicClient = ℕ;
  DiscoveryClient = ℕ;
  ApiError = String;
  dynamic_new_for_config = λ n. if n == 0 then err "bad config" else ok n;
  discovery_new_for_config = λ n. if n == 0 then err "bad config" else ok n;
  get_kube_system_uid = λ d. if d == 9 then err "no answer" else ok "uid";
}

abbrev pub raw : RawContext
raw = record { auth_info = "ann"; cluster = "lab"; namespace = "dev" }

abbrev pub cell : String → ℕ → Context small_api
cell name n = record {
  name = name;
  cluster_uid = "uid";
  user = "ann";
  namespace = "dev";
  cluster = "lab";
  config = n;
  discovery_client = none;
  dynamic_client = some n;
}

-- Two contexts, the second of them current.
abbrev pub two : ClientPool small_api
two = record {
  current = some 1;
  contexts = ("a", 0) ∷ ("b", 1) ∷ [];
  store = cell "a" 5 ∷ cell "b" 6 ∷ [];
}

abbrev pub three_entries : RawConfig
three_entries = record {
  current_context = "b";
  contexts = ("a", raw) ∷ ("b", raw) ∷ ("c", raw) ∷ [];
}

-- "a" and "b" connect, "c" does not.
abbrev pub up : Loader small_api
up = record {
  raw_config = λ _. ok three_entries;
  client_config = λ name. if str_eq name "a" then ok 5 else if str_eq name "b" then ok 6 else ok 0;
}

-- Nothing connects.
abbrev pub down : Loader small_api
down = record { raw_config = λ _. ok three_entries; client_config = λ _. err "no config" }

-- All three connect.
abbrev pub all_up : Loader small_api
all_up = record { raw_config = λ _. ok three_entries; client_config = λ _. ok 7 }
