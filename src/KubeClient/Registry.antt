-- ===== src/KubeClient/Registry.antt =====
-- kubeclient/pool.go: what users of the pool see of it. A registry maps names to contexts and has a
-- current one; it knows no pointers, no order of a map and no clients.
use k8s_explore.Base.{ℕ, String, str_eq, Option, none, some, ok, err, get_elem?, if◌then◌else◌}
use k8s_explore.Base.Dict.{lookup}
use k8s_explore.KubeClient.{Api, Context, ClientPool}
use k8s_explore.KubeClient.Reach.{
  Step, adds, sets_current, asks_dynamic, asks_discovery, Reach, start, later,
}

module _ (api : Api) where
  -- What the getters of a context show, and its configuration.
  pub record Info : Type 0 where
    pub name : String
    pub cluster_uid : String
    pub user : String
    pub namespace : String
    pub cluster : String
    pub config : api.Config

  pub record Registry : Type 0 where
    pub find : String → Option Info
    pub current : Option Info

module _ {api : Api} where
  abbrev pub info : Context api → Info api
  info c = record {
    name = c.name;
    cluster_uid = c.cluster_uid;
    user = c.user;
    namespace = c.namespace;
    cluster = c.cluster;
    config = c.config;
  }

  abbrev pub shown : Option (Context api) → Option (Info api)
  shown none = none
  shown (some c) = some (info c)

  abbrev pub at : ClientPool api → Option ℕ → Option (Info api)
  at p none = none
  at p (some r) = shown (get_elem? p.store r)

  -- The registry that a pool shows.
  abbrev pub view : ClientPool api → Registry api
  view p = record { find = λ name. at p (lookup name p.contexts); current = at p p.current }

  -- The operations of a registry.
  abbrev pub empty : Registry api
  empty = record { find = λ name. none; current = none }

  abbrev pub registered : Info api → Registry api → Registry api
  registered i a = record {
    find = λ name. if str_eq name i.name then some i else a.find name;
    current = elim a.current [ none ↦ some i | some j ↦ some j ];
  }

  abbrev pub chosen : String → Registry api → Registry api
  chosen name a = elim (a.find name) [ none ↦ a | some i ↦ record a { current = some i } ]

  -- A configuration whose cluster can be asked for its uid is registered.
  abbrev pub connects : String → String → String → String → api.Config → Registry api → Registry api
  connects name user cluster namespace config a = elim (api.dynamic_new_for_config config) [
    | err _ ↦ a
    | ok d ↦ elim (api.get_kube_system_uid d) [
      | err _ ↦ a
      | ok uid ↦
          registered
            (record {
              name = name;
              cluster_uid = uid;
              user = user;
              namespace = namespace;
              cluster = cluster;
              config = config;
            })
            a
    ]
  ]

  -- What a call does to the registry.
  abbrev pub effect : {p p' : ClientPool api} → Step p p' → Registry api → Registry api
  effect (adds name user cluster namespace config) a = connects name user cluster namespace config a
  effect (sets_current name) a = chosen name a
  effect (asks_dynamic r c there) a = a
  effect (asks_discovery r c there) a = a

  abbrev pub registry_of : {p : ClientPool api} → Reach p → Registry api
  registry_of start = empty
  registry_of (later reached step) = effect step (registry_of reached)
