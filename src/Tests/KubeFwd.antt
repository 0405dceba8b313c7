-- ===== src/Tests/KubeFwd.antt =====
-- kubefwd/kube/utils.go at a concrete service.
use k8s_explore.KubeFwd.Order.{Settled, Unshared, to_frp_client_pairs-Settled}
use k8s_explore.Base.{◌↔◌, ℕ, ◌==◌, String, ◌≡◌, refl, [], ◌∷◌, map, if◌then◌else◌}
use k8s_explore.Base.Dict.{Dict}
use k8s_explore.KubeFwd.{ServiceContext, kube_tunnel_service_name, to_frp_client_pairs}

abbrev pub itoa : ℕ → String
itoa n = if n == 80 then "80" else if n == 443 then "443" else "9000"

abbrev pub web : ServiceContext
web = record { service_name = "web"; label_selector = []; ports = 80 ∷ 443 ∷ 9000 ∷ [] }

abbrev pub local_ports : Dict String
local_ports = ("8080", "80") ∷ ("9000", "9000") ∷ []

tunnelled_names :
    map (λ pair. pair.name) (to_frp_client_pairs itoa "127.0.0.1" local_ports web)
    ≡ "web-80" ∷ "web-9000" ∷ []
unfolding to_frp_client_pairs
tunnelled_names = refl

spec_name :
    kube_tunnel_service_name (record { ports = []; service_name = "web"; pod_labels = [] })
    ≡ "kubetunnel-web"
spec_name = refl

to_frp_client_pairs-Settled_example :
    Settled itoa "127.0.0.1" web local_ports ↔ Unshared itoa "127.0.0.1" web local_ports
to_frp_client_pairs-Settled_example =
    to_frp_client_pairs-Settled itoa "127.0.0.1" web local_ports (refl, (refl, tt)) refl

-- Two local ports for one port of the service: each order tunnels another one.
shared_port :
    (map
        (λ pair. pair.service.local_port)
        (to_frp_client_pairs itoa "127.0.0.1" (("8080", "80") ∷ ("8081", "80") ∷ []) web)
      ≡ "8081" ∷ [])
    × (map
          (λ pair. pair.service.local_port)
          (to_frp_client_pairs itoa "127.0.0.1" (("8081", "80") ∷ ("8080", "80") ∷ []) web)
        ≡ "8080" ∷ [])
unfolding to_frp_client_pairs
shared_port = (refl, refl)
