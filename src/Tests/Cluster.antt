-- ===== src/Tests/Cluster.antt =====
-- kubefwd/kube/kube.go at concrete clusters.
use k8s_explore.Base.{
  ℕ, String, str_eq, eq_iff, true, false, Option, none, some, Bool, List, [], ◌∷◌, ◌≡◌, ◌≢◌, refl,
  sym, ◌∙◌, ap, subst, arith, Result, ok, err, if◌then◌else◌,
}
use k8s_explore.KubeFwd.{KubeTunnelResourceSpec, kube_tunnel_service_name}
use k8s_explore.Cluster.Access.{
  Clientset, Kube, rbac_check, missing_permission, list_service_names_without_kube_tunnel,
}
use k8s_explore.Cluster.Connect.{
  Loaders, create_in_cluster_kube_client, create_out_of_cluster_kube_client, new_kube,
}
use k8s_explore.Cluster.Upsert.{
  KubeTunnelResource, Rest, resource_url, new_resource, create_kube_tunnel_resource,
}
use k8s_explore.Cluster.Stored.{RestLaws, Explained, OthersKept, create_kube_tunnel_resource_lem}

-- A cluster that allows everything but the watch of pods.
abbrev strict_cluster : Clientset
strict_cluster = record {
  Failure = String;
  validated_selector = λ set. ok "app=web";
  list_pods = λ namespace selector. ok [];
  get_service = λ namespace name. err "no service";
  list_services = λ namespace. ok ("web" ∷ "kubetunnel-web" ∷ "db" ∷ []);
  review = λ perm. ok (if str_eq perm.verb "watch" then false else true);
  server_version = ok "v1";
  atoi = λ text. ok 80;
  start_forward = λ namespace set port. ok 9000;
}

abbrev kube : Kube
kube = record { host = "https://lab"; namespace = "dev" }

watch_is_missing :
    rbac_check strict_cluster kube
    ≡ some (missing_permission "https://lab" "dev" (record { verb = "watch"; resource = "pods" }))
unfolding rbac_check
watch_is_missing = refl

plain_services : list_service_names_without_kube_tunnel strict_cluster kube ≡ ok ("web" ∷ "db" ∷ [])
unfolding list_service_names_without_kube_tunnel
plain_services = refl

abbrev no_cluster : Loaders
no_cluster = record {
  Failure = String;
  Config = ℕ;
  Client = ℕ;
  ClientConfig = ℕ;
  in_cluster_config = err "not in a cluster";
  new_for_config = λ config. ok config;
  deferred = 0;
  load_from_file = λ path. err "no file";
  client_config = λ c. ok c;
  namespace = λ c. "default";
}

-- Neither way to a client works, and `New` panics.
no_client : new_kube no_cluster "/kube.conf" "" ≡ none
unfolding new_kube create_in_cluster_kube_client create_out_of_cluster_kube_client
no_client = refl

-- A resource as text, its fields one after another; the labels are not stored.
abbrev Document : Type 0
Document = List String

abbrev document : KubeTunnelResource KubeTunnelResourceSpec → Document
document r =
    r.kind ∷ r.api_version ∷ r.name ∷ r.resource_version ∷ r.spec.service_name ∷ r.spec.ports

abbrev parsed : Document → Result String (KubeTunnelResource KubeTunnelResourceSpec)
parsed (kind ∷ api_version ∷ name ∷ version ∷ service ∷ ports) = ok (record {
  kind = kind;
  api_version = api_version;
  name = name;
  resource_version = version;
  spec = record { ports = ports; service_name = service; pod_labels = [] };
})
parsed _ = err "no resource"

abbrev name_of : Document → String
name_of (kind ∷ api_version ∷ name ∷ rest) = name
name_of _ = ""

abbrev version_of : Document → String
version_of (kind ∷ api_version ∷ name ∷ version ∷ rest) = version
version_of _ = ""

abbrev with_version : String → Document → Document
with_version v (kind ∷ api_version ∷ name ∷ version ∷ rest) = kind ∷ api_version ∷ name ∷ v ∷ rest
with_version v d = d

abbrev Shelf : Type 0
Shelf = String → Option (String × Document)

abbrev put_at : String → Document → Shelf → Shelf
put_at path d s p = if str_eq p path then some ("new", d) else s p

abbrev posting : String → Document → Option (String × Document) → Shelf → Option String × Shelf
posting path d none s = (none, put_at path d s)
posting path d (some _) s = (some "already exists", s)

abbrev swapping : String → Document → Bool → Shelf → Option String × Shelf
swapping path d true s = (none, put_at path d s)
swapping path d false s = (some "conflict", s)

abbrev putting : String → Document → Option (String × Document) → Shelf → Option String × Shelf
putting path d none s = (some "not found", s)
putting path d (some (v, old)) s = swapping path d (str_eq (version_of d) v) s

-- A server whose store is a function of the URL; every write makes the version "new".
abbrev shelf_server : Rest
shelf_server = record {
  Failure = String;
  Store = Shelf;
  Spec = KubeTunnelResourceSpec;
  service_name = kube_tunnel_service_name;
  Bytes = Document;
  get = λ path s. elim (s path) [ none ↦ err "not found" | some (v, d) ↦ ok (with_version v d) ];
  post = λ url d s. posting (resource_url url (name_of d)) d (s (resource_url url (name_of d))) s;
  put = λ path d s. putting path d (s path) s;
  marshal = λ r. ok (document r);
  unmarshal = parsed;
}

put_at_self : (path : String) (d : Document) (s : Shelf) → put_at path d s path ≡ some ("new", d)
put_at_self path d s = ground (arith, eq_iff path path)

put_at_other :
    (path other : String) (d : Document) (s : Shelf)
    → other ≢ path
    → put_at path d s other ≡ s other
put_at_other path other d s ne = ground (arith, eq_iff other path)

posting-made :
    (path : String) (d : Document) (found : Option (String × Document)) (s s' : Shelf)
    → posting path d found s ≡ (none, s')
    → (found ≡ none) × (v : String) × (s' path ≡ some (v, d))
posting-made path d none s s' h = (refl, "new", sym (ap (λ r. r.1 path) h) ∙ put_at_self path d s)
posting-made path d (some _) s s' h = cc

posting-others :
    (path : String) (d : Document) (found : Option (String × Document)) (s : Shelf) (other : String)
    → other ≢ path
    → (posting path d found s).1 other ≡ s other
posting-others path d none s other ne = put_at_other path other d s ne
posting-others path d (some _) s other ne = refl

swapping-made :
    (path : String) (d : Document) (same : Bool) (s s' : Shelf)
    → swapping path d same s ≡ (none, s')
    → (same ≡ true) × (s' path ≡ some ("new", d))
swapping-made path d true s s' h = (refl, sym (ap (λ r. r.1 path) h) ∙ put_at_self path d s)
swapping-made path d false s s' h = cc

swapping-others :
    (path : String) (d : Document) (same : Bool) (s : Shelf) (other : String)
    → other ≢ path
    → (swapping path d same s).1 other ≡ s other
swapping-others path d true s other ne = put_at_other path other d s ne
swapping-others path d false s other ne = refl

putting-made :
    (path : String) (d : Document) (found : Option (String × Document)) (s s' : Shelf)
    → putting path d found s ≡ (none, s')
    → (old : Document) × (found ≡ some (version_of d, old)) × (v : String) × (s' path ≡ some (v, d))
putting-made path d none s s' h = cc
putting-made path d (some (v, old)) s s' h =
    let (same, stored) = swapping-made path d (str_eq (version_of d) v) s s' h in
    (old, ap (λ x. some (x, old)) (sym ((eq_iff (version_of d) v).0 same)), "new", stored)

putting-others :
    (path : String) (d : Document) (found : Option (String × Document)) (s : Shelf) (other : String)
    → other ≢ path
    → (putting path d found s).1 other ≡ s other
putting-others path d none s other ne = refl
putting-others path d (some (v, old)) s other ne =
    swapping-others path d (str_eq (version_of d) v) s other ne

made-document :
    (r : KubeTunnelResource KubeTunnelResourceSpec) (d : Document)
    → shelf_server.marshal r ≡ ok d
    → document r ≡ d
made-document r d made = cc

shelf_server-RestLaws : RestLaws shelf_server
shelf_server-RestLaws = record {
  view = λ path s. s path;
  post_creates = λ url s s' r d made sends.
      subst
        (λ b.
          posting (resource_url url (name_of b)) b (s (resource_url url (name_of b))) s ≡ (none, s')
          → (s (resource_url url r.name) ≡ none)
            × (v : String) × (s' (resource_url url r.name) ≡ some (v, b)))
        (made-document r d made)
        (posting-made (resource_url url r.name) (document r) (s (resource_url url r.name)) s s')
        sends;
  post_others = λ url s r d other made ne.
      subst
        (λ b.
          (posting (resource_url url (name_of b)) b (s (resource_url url (name_of b))) s).1 other
          ≡ s other)
        (made-document r d made)
        (posting-others (resource_url url r.name) (document r) (s (resource_url url r.name)) s other
          ne);
  put_replaces = λ path s s' r d made sends.
      subst
        (λ b.
          putting path b (s path) s ≡ (none, s')
          → (old : Document) × (s path ≡ some (r.resource_version, old))
            × (v : String) × (s' path ≡ some (v, b)))
        (made-document r d made) (putting-made path (document r) (s path) s s') sends;
  put_others = λ path s d other ne. putting-others path d (s path) s other ne;
}

abbrev web_spec : KubeTunnelResourceSpec
web_spec = record { ports = "80" ∷ []; service_name = "web"; pod_labels = [] }

-- Every URL has an old resource.
full_shelf : Shelf
full_shelf _ = some (
  "7",
  document (record (new_resource shelf_server web_spec) { resource_version = "6"; kind = "old" }),
)

-- It is replaced.
replaced : (create_kube_tunnel_resource shelf_server "dev" web_spec full_shelf).0 ≡ none
unfolding create_kube_tunnel_resource full_shelf
replaced = refl

create_kube_tunnel_resource_lem_example :
    Explained shelf_server shelf_server-RestLaws "dev" web_spec full_shelf
      (create_kube_tunnel_resource shelf_server "dev" web_spec full_shelf)
    × OthersKept shelf_server shelf_server-RestLaws "dev" web_spec full_shelf
        (create_kube_tunnel_resource shelf_server "dev" web_spec full_shelf)
create_kube_tunnel_resource_lem_example =
    create_kube_tunnel_resource_lem shelf_server shelf_server-RestLaws "dev" web_spec full_shelf
