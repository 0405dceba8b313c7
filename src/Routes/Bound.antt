-- ===== src/Routes/Bound.antt =====
-- main.go and the handlers of api/rest: the path parameters that a handler reads.
use k8s_explore.Base.{
  String, str_eq, Bool, true, false, ◌&&◌, ◌||◌, some, List, [], ◌∷◌, ◌≡◌, ◌≢◌, refl, arith, All,
  Bool-cases, Option-cases, inl, inr,
}
use k8s_explore.Base.Dict.{Dict, lookup}
use k8s_explore.Routes.{
  Verb, Segment, literal, param, Endpoint, list_contexts, list_resources, list_objects, get_object,
  update_object, delete_object, list_environments, connect, Route, routes, bind, same_verb,
  matching, Target, One, Router,
}
use k8s_explore.Routes.Unambiguous.{bind-literal, bind-param}

-- The path parameters that a handler cannot do without; `namespace` is read too, and may be missing.
abbrev pub needed : Endpoint → List String
needed list_contexts = []
needed list_resources = "ctx" ∷ []
needed list_objects = "ctx" ∷ "group" ∷ "version" ∷ "resource" ∷ []
needed get_object = "ctx" ∷ "group" ∷ "version" ∷ "resource" ∷ "name" ∷ []
needed update_object = "ctx" ∷ "group" ∷ "version" ∷ "resource" ∷ "name" ∷ []
needed delete_object = "ctx" ∷ "group" ∷ "version" ∷ "resource" ∷ "name" ∷ []
needed list_environments = []
needed connect = []

abbrev pub mentions : String → List Segment → Bool
mentions name [] = false
mentions name (literal a ∷ p) = mentions name p
mentions name (param n ∷ p) = str_eq name n || mentions name p

abbrev pub mentions_all : List String → List Segment → Bool
mentions_all [] p = true
mentions_all (name ∷ names) p = mentions name p && mentions_all names p

abbrev pub HasValue : Dict String → String → Type 0
HasValue values name = (x : String) × (lookup name values ≡ some x) × (x ≢ "")

mentions-HasValue :
    (name : String) (p : List Segment) (path : List String) {v : Dict String}
    → mentions name p ≡ true
    → bind p path ≡ some v
    → HasValue v name
mentions-HasValue name [] path m h = cc
mentions-HasValue name (s ∷ p) [] m h = cc
mentions-HasValue name (literal a ∷ p) (x ∷ path) m h =
    mentions-HasValue name p path m (bind-literal a p x path h).1
mentions-HasValue name (param n ∷ p) (x ∷ path) m h =
    let (w, rest, full, made) = bind-param n p x path h in
    elim (Bool-cases (str_eq name n)) [
      | inl same ↦ (x, ground (arith, made, same), full)
      | inr other ↦
          let (y, found, some_text) =
            mentions-HasValue name p path (ground (arith, m, other)) rest in
          (y, ground (arith, made, other, found), some_text)
    ]

mentions_all-HasValue :
    (names : List String) (p : List Segment) (path : List String) {v : Dict String}
    → mentions_all names p ≡ true
    → bind p path ≡ some v
    → All (HasValue v) names
mentions_all-HasValue [] p path m h = tt
mentions_all-HasValue (name ∷ names) p path m h = (
  mentions-HasValue name p path (ground (arith, m)) h,
  mentions_all-HasValue names p path (ground (arith, m)) h,
)

abbrev pub IsBound : Endpoint × Dict String → Type 0
IsBound m = All (HasValue m.1) (needed m.0)

abbrev pub binds : List Route → Bool
binds [] = true
binds (r ∷ table) = mentions_all (needed r.endpoint) r.pattern && binds table

matching-IsBound :
    (table : List Route) (verb : Verb) (path : List String)
    → binds table ≡ true
    → All IsBound (matching table verb path)
unfolding matching
matching-IsBound [] verb path b = tt
matching-IsBound (r ∷ table) verb path b =
    let rest = matching-IsBound table verb path (ground (arith, b)) in
    elim (Bool-cases (same_verb r.verb verb)) [
      | inr other ↦ rw other rest
      | inl same ↦ elim (Option-cases (bind r.pattern path)) [
        | inl misses ↦ rw (same, misses) rest
        | inr (v, fits) ↦
            rw (same, fits)
              (
                mentions_all-HasValue (needed r.endpoint) r.pattern path (ground (arith, b)) fits,
                rest,
              )
      ]
    ]

One-All : (m : Target) (xs : List Target) → One m xs → All IsBound xs → IsBound m
One-All m [] h all = absurd h
One-All m (x ∷ xs) (inl same) all = rw same all.0
One-All m (x ∷ xs) (inr h) all = One-All m xs h all.1

-- Whatever the request, the handler that gin finds for it has a text that is not empty for every path
-- parameter that it cannot do without.
pub routes-IsBound :
    (a : Router routes) (verb : Verb) (path : List String) (m : Target)
    → a.find verb path ≡ some m
    → IsBound m
routes-IsBound a verb path m sent =
    One-All m (matching routes verb path) (a.found verb path m sent)
      (matching-IsBound routes verb path refl)
