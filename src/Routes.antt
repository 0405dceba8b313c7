-- ===== src/Routes.antt =====
-- main.go, `run`: the table of routes. A path is the list of its segments, the texts between its
-- slashes; every route of the table ends with a slash, which is left out, and so is the redirection
-- by which gin answers a path without it. gin documents that a
-- parameter `:name` of a pattern matches one segment that is not empty.
pub mod Unambiguous
pub mod Bound
pub mod Found
use k8s_explore.Base.{
  ℕ, String, str_eq, Bool, true, false, not, ◌&&◌, ◌||◌, Option, none, some, List, [], ◌∷◌, ◌++◌,
  if◌then◌else◌, ◌≡◌, ◌≢◌, ◌⊎◌,
}
use k8s_explore.Base.Dict.{Dict}

pub data Verb : Type 0 where
  get put delete : Verb

pub data Segment : Type 0 where
  literal : String → Segment
  param : String → Segment

-- The handler methods that `run` registers.
pub data Endpoint : Type 0 where
  list_contexts list_resources list_objects get_object update_object delete_object : Endpoint
  list_environments connect : Endpoint

pub record Route : Type 0 where
  pub verb : Verb
  pub pattern : List Segment
  pub endpoint : Endpoint

-- The groups of `run`.
abbrev pub contexts_group : List Segment
contexts_group = literal "api" ∷ literal "kube" ∷ literal "v1" ∷ literal "contexts" ∷ []

abbrev pub resources_group : List Segment
resources_group = contexts_group ++ param "ctx" ∷ literal "resources" ∷ []

abbrev pub environment_group : List Segment
environment_group =
    literal "api" ∷ literal "environment" ∷ literal "v1" ∷ literal "environments" ∷ []

abbrev pub stream_group : List Segment
stream_group = literal "api" ∷ literal "stream" ∷ literal "v1" ∷ []

-- The patterns below `resources_group`, of a cluster's objects and of a namespace's.
abbrev pub cluster_objects : List Segment
cluster_objects = param "group" ∷ param "version" ∷ param "resource" ∷ []

abbrev pub namespace_objects : List Segment
namespace_objects =
    param "group"
    ∷ param "version"
    ∷ literal "namespaces"
    ∷ param "namespace"
    ∷ param "resource"
    ∷ []

abbrev pub object_route : Verb → List Segment → Endpoint → Route
object_route verb pattern endpoint = record {
  verb = verb;
  pattern = resources_group ++ pattern;
  endpoint = endpoint;
}

abbrev pub routes : List Route
routes =
    record { verb = get; pattern = contexts_group; endpoint = list_contexts }
    ∷ record { verb = get; pattern = resources_group; endpoint = list_resources }
    ∷ object_route get cluster_objects list_objects
    ∷ object_route get namespace_objects list_objects
    ∷ object_route get (cluster_objects ++ param "name" ∷ []) get_object
    ∷ object_route get (namespace_objects ++ param "name" ∷ []) get_object
    ∷ object_route put (cluster_objects ++ param "name" ∷ []) update_object
    ∷ object_route put (namespace_objects ++ param "name" ∷ []) update_object
    ∷ object_route delete (cluster_objects ++ param "name" ∷ []) delete_object
    ∷ object_route delete (namespace_objects ++ param "name" ∷ []) delete_object
    ∷ record { verb = get; pattern = environment_group; endpoint = list_environments }
    ∷ record { verb = get; pattern = stream_group; endpoint = connect }
    ∷ []

-- The values of a pattern's parameters at a path, if the path fits.
abbrev pub bind : List Segment → List String → Option (Dict String)
bind [] [] = some []
bind [] (x ∷ path) = none
bind (s ∷ pattern) [] = none
bind (literal a ∷ pattern) (x ∷ path) =
    let rest = bind pattern path in if str_eq a x then rest else none
bind (param name ∷ pattern) (x ∷ path) =
    let rest = bind pattern path in
    if str_eq x ""
    then none
    else elim rest [ none ↦ none | some values ↦ some ((name, x) ∷ values) ]

abbrev pub same_verb : Verb → Verb → Bool
same_verb get get = true
same_verb put put = true
same_verb delete delete = true
same_verb _ _ = false

-- The endpoints of the routes of a table that fit a request, with their parameters.
unfoldable pub matching : List Route → Verb → List String → List (Endpoint × Dict String)
matching [] verb path = []
matching (r ∷ table) verb path =
    let rest = matching table verb path in
    if same_verb r.verb verb
    then elim (bind r.pattern path) [ none ↦ rest | some values ↦ (r.endpoint, values) ∷ rest ]
    else rest

abbrev pub Target : Type 0
Target = Endpoint × Dict String

abbrev pub One : Target → List Target → Type 0
One m [] = ⊥
One m (x ∷ xs) = (m ≡ x) ⊎ One m xs

abbrev pub IsRoute : Route → List Route → Type 0
IsRoute r [] = ⊥
IsRoute r (t ∷ table) = (r ≡ t) ⊎ IsRoute r table

-- The first pattern has a literal at a place where the second has a parameter and the path has that
-- literal.
abbrev pub shades : List Segment → List Segment → List String → Bool
shades (literal a ∷ p) (param n ∷ q) (x ∷ path) = str_eq a x || shades p q path
shades (s ∷ p) (t ∷ q) (x ∷ path) = shades p q path
shades _ _ _ = false

-- At some segment that the pattern takes as a parameter, the path has a literal of another route.
abbrev pub shaded : List Route → Verb → List Segment → List String → Bool
shaded [] verb pattern path = false
shaded (t ∷ table) verb pattern path =
    same_verb t.verb verb && shades t.pattern pattern path || shaded table verb pattern path

-- gin: the handler and the parameters that it finds for a request. They are those of a route that
-- fits. gin documents that a literal segment goes before a parameter, whatever the order of the
-- routes: it need not find a route one of whose parameters would be a literal of another route, and
-- finds one for any other path that a route fits.
pub record Router (table : List Route) : Type 0 where
  pub find : Verb → List String → Option Target
  pub found :
      (verb : Verb) (path : List String) (m : Target)
      → find verb path ≡ some m
      → One m (matching table verb path)
  pub finds :
      (r : Route) (path : List String) (values : Dict String)
      → IsRoute r table
      → bind r.pattern path ≡ some values
      → shaded table r.verb r.pattern path ≡ false
      → find r.verb path ≢ none
