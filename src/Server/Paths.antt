-- ===== src/Server/Paths.antt =====
-- main.go: the URLs of kinds and objects, and the values that their routes bind.
use Prim.Native.Char.{code}
use k8s_explore.Base.{
  All, Bool, ◌||◌, ◌==◌, String, str_eq, eq_iff, false, if◌then◌else◌, Bool-cases, true, some, List,
  [], ◌∷◌, ◌++◌, ◌≡◌, ◌≢◌, refl, inl, inr,
}
use k8s_explore.Base.Dict.{Dict}
use k8s_explore.Rest.Objects
use k8s_explore.Rest.Objects.{Kube}
use k8s_explore.Routes.{Segment, bind, resources_group, cluster_objects, namespace_objects}
use k8s_explore.Server.Http.{text_of, object_request}

-- The values that bring a request to the handlers of objects.go: the URL of a resource, of a kind in
-- a namespace or of none, and of one object of it.
abbrev pub resource_path : Objects.Request → List String → List String
resource_path req rest =
    "api" ∷ "kube" ∷ "v1" ∷ "contexts" ∷ req.ctx ∷ "resources" ∷ req.group ∷ req.version ∷ rest

abbrev pub kind_path : Objects.Request → List String → List String
kind_path req rest =
    if str_eq req.namespace ""
    then resource_path req (req.resource ∷ rest)
    else resource_path req ("namespaces" ∷ req.namespace ∷ req.resource ∷ rest)

abbrev pub url_of : Objects.Request → List String
url_of req = if str_eq req.name "" then kind_path req [] else kind_path req (req.name ∷ [])

abbrev pub query_of : Objects.Request → Dict String
query_of req = ("fieldSelector", req.field_selector) ∷ ("labelSelector", req.label_selector) ∷ []

abbrev pub has_slash : String → Bool
has_slash String.[] = false
has_slash (String.◌∷◌ c s) = code c == b'/' || has_slash s

-- The fields of which a URL can be made: none that a path cannot leave out is empty, none has a slash,
-- and the objects outside of a namespace are no namespaces, whose URLs gin takes for those of the
-- objects in a namespace.
pub record Complete (req : Objects.Request) : Type 0 where
  pub some_ctx : req.ctx ≢ ""
  pub some_group : req.group ≢ ""
  pub some_version : req.version ≢ ""
  pub some_resource : req.resource ≢ ""
  pub segments :
      All
        (λ x. has_slash x ≡ false)
        (req.ctx ∷ req.group ∷ req.version ∷ req.resource ∷ req.namespace ∷ req.name ∷ [])
  pub no_namespaces : req.namespace ≡ "" → req.resource ≢ "namespaces"

full : (s : String) → s ≢ "" → str_eq s "" ≡ false
full s h = elim (Bool-cases (str_eq s "")) [
  | inl blank ↦ absurd (h ((eq_iff s "").0 blank))
  | inr other ↦ other
]

-- The values that the paths bind.
abbrev pub bound : Objects.Request → Dict String → Dict String
bound req rest = ("ctx", req.ctx) ∷ ("group", req.group) ∷ ("version", req.version) ∷ rest

abbrev pub bound_in : Objects.Request → Dict String → Dict String
bound_in req rest = bound req (("namespace", req.namespace) ∷ ("resource", req.resource) ∷ rest)

module _ (req : Objects.Request) (all : Complete req) where
  pub bind-kind :
      (rest : List Segment) (names : List String) (values : Dict String)
      → bind rest names ≡ some values
      → bind (resources_group ++ cluster_objects ++ rest) (resource_path req (req.resource ∷ names))
        ≡ some (bound req (("resource", req.resource) ∷ values))
  bind-kind rest names values fits =
      rw
        (
          full req.ctx all.some_ctx,
          full req.group all.some_group,
          full req.version all.some_version,
          full req.resource all.some_resource,
          fits,
        )
        refl

  pub bind-kind_in :
      req.namespace ≢ ""
      → (rest : List Segment) (names : List String) (values : Dict String)
      → bind rest names ≡ some values
      → bind
          (resources_group ++ namespace_objects ++ rest)
          (resource_path req ("namespaces" ∷ req.namespace ∷ req.resource ∷ names))
        ≡ some (bound_in req values)
  bind-kind_in inside rest names values fits =
      rw
        (
          full req.ctx all.some_ctx,
          full req.group all.some_group,
          full req.version all.some_version,
          full req.namespace inside,
          full req.resource all.some_resource,
          fits,
        )
        refl

  -- What the handlers read is the request.
  pub kind_request :
      (rest : Dict String)
      → str_eq req.namespace "" ≡ true
      → text_of "name" rest ≡ req.name
      → text_of "namespace" rest ≡ ""
      → object_request (bound req (("resource", req.resource) ∷ rest)) (query_of req) ≡ req
  kind_request rest h named outside = rw (outside, named, (eq_iff req.namespace "").0 h) refl

  pub kind_in_request :
      (rest : Dict String)
      → text_of "name" rest ≡ req.name
      → object_request (bound_in req rest) (query_of req) ≡ req
  kind_in_request rest named = rw named refl
