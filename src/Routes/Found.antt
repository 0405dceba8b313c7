-- ===== src/Routes/Found.antt =====
-- main.go: what a router finds for a request that fits a route of the table, or none.
use k8s_explore.Base.{
  String, false, none, some, List, [], ◌∷◌, ◌≡◌, refl, subst, Bool-cases, Option-cases, inl, inr,
}
use k8s_explore.Base.Dict.{Dict}
use k8s_explore.Routes.{
  Verb, Route, routes, bind, same_verb, matching, IsRoute, shaded, One, Router,
}
use k8s_explore.Routes.Unambiguous.{same_verb_refl, routes-length, only}

-- A route of the table that fits a request is the one that a router takes.
pub fitting :
    (r : Route) (table : List Route) (path : List String) (values : Dict String)
    → IsRoute r table
    → bind r.pattern path ≡ some values
    → One (r.endpoint, values) (matching table r.verb path)
unfolding matching
fitting r [] path values h fits = absurd h
fitting r (t ∷ table) path values (inl same) fits =
    let here : One (r.endpoint, values) (matching (r ∷ table) r.verb path) =
      rw (same_verb_refl r.verb, fits) (inl refl) in
    subst (λ x. One (r.endpoint, values) (matching (x ∷ table) r.verb path)) same here
fitting r (t ∷ table) path values (inr h) fits =
    let rest = fitting r table path values h fits in
    elim (Bool-cases (same_verb t.verb r.verb)) [
      | inr other ↦ rw other rest
      | inl too ↦ elim (Option-cases (bind t.pattern path)) [
        | inl misses ↦ rw (too, misses) rest
        | inr (v, fits') ↦ rw (too, fits') (inr rest)
      ]
    ]

pub routes_find :
    (a : Router routes) (r : Route) (path : List String) (values : Dict String)
    → IsRoute r routes
    → bind r.pattern path ≡ some values
    → shaded routes r.verb r.pattern path ≡ false
    → a.find r.verb path ≡ some (r.endpoint, values)
routes_find a r path values member fits sure =
    let fit = fitting r routes path values member fits in
    let here =
      only (r.endpoint, values) (matching routes r.verb path) fit (routes-length r.verb path) in
    elim (Option-cases (a.find r.verb path)) [
      | inl nothing ↦ absurd (a.finds r path values member fits sure nothing)
      | inr (m, got) ↦
          let at =
            only m (matching routes r.verb path) (a.found r.verb path m got)
              (routes-length r.verb path) in
          cc
    ]

pub routes_miss :
    (a : Router routes) (verb : Verb) (path : List String)
    → matching routes verb path ≡ []
    → a.find verb path ≡ none
routes_miss a verb path misses = elim (Option-cases (a.find verb path)) [
  | inl nothing ↦ nothing
  | inr (m, got) ↦ absurd (subst (One m) misses (a.found verb path m got))
]
