-- ===== src/KubeFwd/Tunnelled.antt =====
-- kubefwd/kube/utils.go: the pairs tunnel exactly the ports that the map of local ports names.
use k8s_explore.Base.{
  keep, ℕ, String, str_eq, eq_iff, Bool, true, false, ◌||◌, none, some, List, [], ◌∷◌, map, ◌≡◌,
  ◌≢◌, refl, ◌∙◌, arith, All, ◌⊎◌, inl, inr,
}
use k8s_explore.Base.Dict.{
  Dict, lookup, insert, IsMap, String-cases, lookup-insert_self, lookup-insert_ne,
}
use Prim.Native.String.{◌++◌ as text_append}
use k8s_explore.KubeFwd.{
  ServiceContext, ServicePair, KubeTunnelResourceSpec, kubetunnel_slug, read, invert, keep_some,
  to_kube_tunnel_resource_spec, pair_of, to_frp_client_pairs,
}

-- Whether some local port is mapped to the remote port.
abbrev pub has_local : Dict String → String → Bool
has_local [] remote = false
has_local (e ∷ es) remote = str_eq remote e.1 || has_local es remote

-- What the inverted map has under a remote port: a local port of the map, or what it had before.
pub invert-cases :
    (es done : Dict String) (remote : String)
    → IsMap es
    → ((l : String) × (lookup remote (invert es done) ≡ some l)
        × (lookup l es ≡ some remote)
        × (has_local es remote ≡ true))
      ⊎ ((has_local es remote ≡ false) × (lookup remote (invert es done) ≡ lookup remote done))
unfolding invert
invert-cases [] done remote m = inr (refl, refl)
invert-cases (e ∷ es) done remote m = elim (invert-cases es (insert e.1 e.0 done) remote m.1) [
  | inl (l, found, at, known) ↦
      inl (l, found, ground (arith, m.0, eq_iff l e.0), ground (arith, known))
  | inr (missing, same) ↦ elim (String-cases remote e.1) [
    | inl here ↦ inl (
      e.0,
      same ∙ (rw here (lookup-insert_self e.1 e.0 done)),
      ground (arith, here, eq_iff e.0 e.0),
      ground (arith, here, eq_iff remote e.1),
    )
    | inr other ↦ inr (
      ground (arith, missing, eq_iff remote e.1),
      same ∙ lookup-insert_ne e.1 remote e.0 done other,
    )
  ]
]

module _ (itoa : ℕ → String) (local_ip : String) (remote_port_by_local : Dict String)
    (ctx : ServiceContext) (m : IsMap remote_port_by_local)
    (no_blank : lookup "" remote_port_by_local ≡ none) where
  -- A pair leads from the local address to the remote port that the map has for its local port, and
  -- is named after the service and the remote port.
  abbrev pub Tunnels : ServicePair → Type 0
  Tunnels pair =
      (lookup pair.service.local_port remote_port_by_local ≡ some pair.service.remote_port)
      × (pair.service.local_ip ≡ local_ip)
      × (pair.service.type ≡ "tcp")
      × (pair.name ≡ text_append ctx.service_name (text_append "-" pair.service.remote_port))

  pair_of-cases :
      (port : ℕ)
      → ((pair : ServicePair) × (pair_of itoa local_ip (invert remote_port_by_local []) ctx port
            ≡ some pair)
          × (pair.service.remote_port ≡ itoa port)
          × Tunnels pair
          × (has_local remote_port_by_local (itoa port) ≡ true))
        ⊎ ((pair_of itoa local_ip (invert remote_port_by_local []) ctx port ≡ none)
            × (has_local remote_port_by_local (itoa port) ≡ false))
  unfolding pair_of
  pair_of-cases port = elim (invert-cases remote_port_by_local [] (itoa port) m) [
    | inr (missing, absent) ↦
        let blank : read (itoa port) (invert remote_port_by_local []) ≡ "" =
          rw (absent, read) refl in
        inr (
          ground (arith, blank, eq_iff (read (itoa port) (invert remote_port_by_local [])) ""),
          missing,
        )
    | inl (l, found, at, known) ↦
        let ne : l ≢ "" = (λ e. cc) in
        let here : read (itoa port) (invert remote_port_by_local []) ≡ l = rw (found, read) refl in
        inl (
          record {
            name = text_append ctx.service_name (text_append "-" (itoa port));
            service = record {
              type = "tcp";
              remote_port = itoa port;
              local_ip = local_ip;
              local_port = l;
            };
          },
          ground (arith, here, ne, eq_iff l ""),
          refl,
          (at, refl, refl, refl),
          known,
        )
  ]

  pairs_from :
      (ports : List ℕ)
      → let pairs =
          keep_some (map (pair_of itoa local_ip (invert remote_port_by_local []) ctx) ports) in
        (map (λ pair. pair.service.remote_port) pairs
          ≡ keep (has_local remote_port_by_local) (map itoa ports))
        × All Tunnels pairs
  pairs_from [] = (refl, tt)
  pairs_from (port ∷ ports) =
      let (same, good) = pairs_from ports in
      elim (pair_of-cases port) [
        | inl (pair, made, remote, tunnels, known) ↦
            rw (made, known) (ground (arith, same, remote), (tunnels, good))
        | inr (none_made, unknown) ↦ rw (none_made, unknown) (same, good)
      ]

  -- For a map of local ports without a blank one: the remote ports of the pairs are those of the
  -- service to which the map leads, in the order of the service, and each pair tunnels its remote port
  -- as the map says.
  pub to_frp_client_pairs_lem :
      let pairs = to_frp_client_pairs itoa local_ip remote_port_by_local ctx in
      (map (λ pair. pair.service.remote_port) pairs
        ≡ keep (has_local remote_port_by_local) (map itoa ctx.ports))
      × All Tunnels pairs
  unfolding to_frp_client_pairs
  to_frp_client_pairs_lem = pairs_from ctx.ports

-- Where the map of labels is not nil, the spec of a tunnel has the ports of the service in order and
-- its name; the labels keep what they had under other keys, and have the service's name under
-- `kubetunnel`. For a map of local ports without a blank one, the remote ports of the service's pairs
-- are the ports of the spec to which the map leads.
pub to_kube_tunnel_resource_spec_lem :
    (itoa : ℕ → String) (local_ip : String) (remote_port_by_local labels : Dict String)
    (ctx : ServiceContext)
    → IsMap remote_port_by_local
    → lookup "" remote_port_by_local ≡ none
    → (spec : KubeTunnelResourceSpec) × (to_kube_tunnel_resource_spec itoa ctx (some labels)
        ≡ some (spec, spec.pod_labels))
      × (spec.service_name ≡ ctx.service_name)
      × (spec.ports ≡ map itoa ctx.ports)
      × (lookup kubetunnel_slug spec.pod_labels ≡ some ctx.service_name)
      × ((key : String) → key ≢ kubetunnel_slug → lookup key spec.pod_labels ≡ lookup key labels)
      × (map
            (λ pair. pair.service.remote_port)
            (to_frp_client_pairs itoa local_ip remote_port_by_local ctx)
          ≡ keep (has_local remote_port_by_local) spec.ports)
unfolding to_kube_tunnel_resource_spec
to_kube_tunnel_resource_spec_lem itoa local_ip remote_port_by_local labels ctx m no_blank = (
  _,
  refl,
  refl,
  refl,
  lookup-insert_self kubetunnel_slug ctx.service_name labels,
  λ key ne. lookup-insert_ne kubetunnel_slug key ctx.service_name labels ne,
  (to_frp_client_pairs_lem itoa local_ip remote_port_by_local ctx m no_blank).0,
)
