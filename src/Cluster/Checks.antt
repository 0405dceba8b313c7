-- ===== src/Cluster/Checks.antt =====
-- kubefwd/kube/kube.go: what the permission check and the readings answer.
use k8s_explore.Base.{
  keep, String, true, not, none, List, [], ◌∷◌, ◌++◌, append_assoc, append-nil, ◌≡◌, refl, sym, ◌∙◌,
  ◌↔◌, inl, inr, arith, All, ok, err, Bool-cases, Result-cases,
}
use text.Mathlib.Text.{starts_with}
use k8s_explore.KubeFwd.{kubetunnel_slug}
use k8s_explore.Cluster.Access.{
  Permission, foreign, Clientset, Kube, required_permissions, without_tunnels,
  list_service_names_without_kube_tunnel, check_permissions, rbac_check,
}

module _ (api : Clientset) (k : Kube) where
  check_permissions-none :
      (perms : List Permission)
      → (check_permissions api k perms ≡ none) ↔ All (λ perm. api.review perm ≡ ok true) perms
  unfolding check_permissions
  check_permissions-none [] = (λ h. tt, λ h. refl)
  check_permissions-none (perm ∷ perms) = elim (Result-cases (api.review perm)) [
    | inr (e, failed) ↦ (λ h. ground (arith, failed), λ h. ground (arith, failed))
    | inl (allowed, answer) ↦ elim (Bool-cases allowed) [
      | inl yes_ ↦ ground (arith, answer, check_permissions-none perms)
      | inr no_ ↦ ground (arith, answer)
    ]
  ]

  -- The permission check finds no fault exactly if the cluster allows all four permissions.
  pub rbac_check-none : (rbac_check api k ≡ none) ↔ (
      (api.review (record { verb = "list"; resource = "pods" }) ≡ ok true)
      × (api.review (record { verb = "get"; resource = "pods" }) ≡ ok true)
      × (api.review (record { verb = "watch"; resource = "pods" }) ≡ ok true)
      × (api.review (record { verb = "get"; resource = "services" }) ≡ ok true))
  unfolding rbac_check
  rbac_check-none =
      let (to, from) = check_permissions-none required_permissions in
      (
        λ h. let (a, (b, (c, (d, _)))) = to h in (a, b, c, d),
        λ h. from (h.0, (h.1, (h.2, (h.3, tt)))),
      )

  without_tunnels-keep :
      (done names : List String)
      → without_tunnels done names
        ≡ done ++ keep (λ name. not (starts_with name kubetunnel_slug)) names
  without_tunnels-keep done [] = sym (append-nil done)
  without_tunnels-keep done (name ∷ names) = elim (Bool-cases (starts_with name kubetunnel_slug)) [
    | inl tunnel ↦ rw tunnel (without_tunnels-keep done names)
    | inr plain ↦
        rw plain (without_tunnels-keep (done ++ name ∷ []) names ∙ append_assoc done (name ∷ []) _)
  ]

  -- The names of services are those of the namespace, in order, less the ones that begin with
  -- "kubetunnel"; an error of the cluster is passed on.
  pub list_service_names_lem :
      list_service_names_without_kube_tunnel api k ≡ elim (api.list_services k.namespace) [
        | err e ↦ err (foreign e)
        | ok names ↦ ok (keep (λ name. not (starts_with name kubetunnel_slug)) names)
      ]
  unfolding list_service_names_without_kube_tunnel
  list_service_names_lem = elim (Result-cases (api.list_services k.namespace)) [
    | inr (e, failed) ↦ ground (arith, failed)
    | inl (names, listed) ↦ ground (arith, listed, without_tunnels-keep [] names)
  ]
