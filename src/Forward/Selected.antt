-- ===== src/Forward/Selected.antt =====
-- kubefwd/kubefwd.go: which pods are forwarded for a service.
use k8s_explore.Base.{
  String, str_eq, eq_iff, Bool, true, false, not, ◌&&◌, none, some, List, [], ◌∷◌, ◌++◌, ◌≡◌, ◌≢◌,
  refl, sym, ◌∙◌, arith, Bool-cases, inl, inr, ◌⊎◌, ap,
}
use mathlib.Core.Option.{some-injective}
use k8s_explore.Base.Dict.{Dict, lookup}
use text.Mathlib.Text.{starts_with}
use k8s_explore.KubeFwd.{kubetunnel_slug}
use k8s_explore.Forward.{
  Service, Labels, ServiceFwd, service, Request, register, returned, agent_label, excludes_agent,
  pod_selector, add_service_handler,
}

-- Whether a pod's labels have a value under a key, and all the pairs of a set.
abbrev pub has_label : String → String → Dict String → Bool
has_label key value pod = elim (lookup key pod) [ none ↦ false | some v ↦ str_eq v value ]

abbrev pub selected : Dict String → Dict String → Bool
selected [] pod = true
selected (e ∷ set) pod = has_label e.0 e.1 pod && selected set pod

-- What the package `labels` documents of the selectors that the handler makes.
pub record LabelLaws (labels : Labels) : Type 0 where
  pub matches : labels.Selector → Dict String → Bool
  pub matches_set :
      (set pod : Dict String) → matches (labels.as_selector set) pod ≡ selected set pod
  pub matches_add :
      (s : labels.Selector) (key value : String) (r : labels.Requirement) (pod : Dict String)
      → labels.not_equals key value ≡ some r
      → matches (labels.add s r) pod ≡ (matches s pod && not (has_label key value pod))
  pub add_text :
      (s : labels.Selector) (r : labels.Requirement) → labels.to_string (labels.add s r) ≢ ""

and_true : (b : Bool) → (b && true) ≡ b
and_true b = ground arith

module _ (labels : Labels) (laws : LabelLaws labels) (svc : Service) (r : labels.Requirement)
    (valid : labels.not_equals agent_label svc.name ≡ some r) where
  open laws use {matches, matches_set, matches_add, add_text}

  excludes-blank :
      svc.selector ≡ [] → starts_with svc.name kubetunnel_slug ≡ false → excludes_agent svc ≡ true
  unfolding excludes_agent
  excludes-blank blank no_prefix = rw (blank, no_prefix)

  pod_selector-some :
      excludes_agent svc ≡ true
      → pod_selector labels svc ≡ some (labels.add (labels.as_selector svc.selector) r)
  unfolding pod_selector
  pod_selector-some excludes = rw (excludes, valid)

  -- For a service whose name makes a valid requirement, the selector matches the pods that the service
  -- selects, less the agents of its own tunnel unless the service is part of a tunnel itself.
  pub pod_selector_lem :
      (selector : labels.Selector) × (pod_selector labels svc ≡ some selector)
      × ((pod : Dict String)
          → matches selector pod ≡ (
              selected svc.selector pod
              && not (excludes_agent svc && has_label agent_label svc.name pod)))
  unfolding pod_selector
  pod_selector_lem = elim (Bool-cases (excludes_agent svc)) [
    | inl excludes ↦ (
      labels.add (labels.as_selector svc.selector) r,
      ground (arith, excludes, valid),
      λ pod.
          matches_add (labels.as_selector svc.selector) agent_label svc.name r pod valid
          ∙ rw (matches_set svc.selector pod, excludes),
    )
    | inr keeps ↦ (
      labels.as_selector svc.selector,
      ground (arith, keeps),
      λ pod. matches_set svc.selector pod ∙ rw keeps (sym (and_true (selected svc.selector pod))),
    )
  ]

  -- A service without a selector, which is no part of a tunnel, is not skipped: it is registered, with
  -- a selector that matches every pod of the namespace but the agents of its tunnel.
  pub no_selector_forwards_all :
      {Other : Type 0} (namespace : String) (sent : List (Request Other))
      → svc.selector ≡ []
      → starts_with svc.name kubetunnel_slug ≡ false
      → (selector : labels.Selector) × (fwd : ServiceFwd) × (add_service_handler labels namespace
            (service svc)
            sent
          ≡ returned (sent ++ register fwd ∷ []))
        × (fwd.pod_label_selector ≡ labels.to_string selector)
        × ((pod : Dict String) → matches selector pod ≡ not (has_label agent_label svc.name pod))
  unfolding add_service_handler
  no_selector_forwards_all namespace sent blank no_prefix =
      let excludes : excludes_agent svc ≡ true = excludes-blank blank no_prefix in
      let sel = labels.add (labels.as_selector svc.selector) r in
      let fwd : ServiceFwd = record {
        svc = svc;
        namespace = namespace;
        pod_label_selector = labels.to_string sel;
        headless = str_eq svc.cluster_ip "None";
      } in
      (
        sel,
        fwd,
        ground (
          arith,
          pod_selector-some excludes,
          add_text (labels.as_selector svc.selector) r,
          eq_iff (labels.to_string sel) "",
        ),
        refl,
        λ pod.
            matches_add (labels.as_selector svc.selector) agent_label svc.name r pod valid
            ∙ rw (matches_set svc.selector pod, blank),
      )

  -- For a service whose name makes a valid requirement, `AddServiceHandler` registers a forward with the
  -- text of a selector that matches the pods that the service selects, less the agents of its own tunnel
  -- unless the service is part of a tunnel itself. It skips a service only if it is part of a tunnel and
  -- its selector has no text: any other service without a selector is forwarded to every pod but those
  -- agents.
  pub add_service_handler-pod_selector :
      {Other : Type 0} (namespace : String) (sent : List (Request Other))
      → (selector : labels.Selector) × ((pod : Dict String)
          → matches selector pod ≡ (
              selected svc.selector pod
              && not (excludes_agent svc && has_label agent_label svc.name pod)))
        × (((excludes_agent svc ≡ false)
              × (labels.to_string selector ≡ "")
              × (add_service_handler labels namespace (service svc) sent ≡ returned sent))
            ⊎ ((fwd : ServiceFwd) × (fwd.svc ≡ svc)
                × (fwd.namespace ≡ namespace)
                × (fwd.pod_label_selector ≡ labels.to_string selector)
                × (add_service_handler labels namespace (service svc) sent
                    ≡ returned (sent ++ register fwd ∷ []))))
  unfolding add_service_handler
  add_service_handler-pod_selector namespace sent =
      let (sel, made, matching) = pod_selector_lem in
      let fwd : ServiceFwd = record {
        svc = svc;
        namespace = namespace;
        pod_label_selector = labels.to_string sel;
        headless = str_eq svc.cluster_ip "None";
      } in
      elim (Bool-cases (str_eq (labels.to_string sel) "")) [
        | inr full ↦ (sel, matching, inr (fwd, refl, refl, refl, ground (arith, made, full)))
        | inl blank ↦ elim (Bool-cases (excludes_agent svc)) [
          | inl excludes ↦
              let one : sel ≡ labels.add (labels.as_selector svc.selector) r =
                some-injective sel _ (sym made ∙ pod_selector-some excludes) in
              absurd (
                add_text (labels.as_selector svc.selector) r
                  (ap labels.to_string (sym one) ∙ (eq_iff (labels.to_string sel) "").0 blank))
          | inr keeps ↦ (
            sel,
            matching,
            inl (keeps, (eq_iff (labels.to_string sel) "").0 blank, ground (arith, made, blank)),
          )
        ]
      ]
