-- ===== src/Tests/Ports.antt =====
-- kubetunnel/kubetunnel_resource.go at concrete ports.
use k8s_explore.Base.{[], ◌∷◌, ◌++◌, ◌≡◌, refl}
use k8s_explore.Ports.{Bytes, Ports, marshal_json, unmarshal_json}
use k8s_explore.Ports.RoundTrip.{unmarshal_json-marshal_json}

abbrev http_port : Bytes
http_port = b'8' ∷ b'0' ∷ []

abbrev https_port : Bytes
https_port = b'4' ∷ b'4' ∷ b'3' ∷ []

abbrev two_ports : Ports
two_ports = record { values = http_port ∷ https_port ∷ [] }

two_ports-json : marshal_json two_ports ≡ b'"' ∷ b'8' ∷ b'0' ∷ b',' ∷ b'4' ∷ b'4' ∷ b'3' ∷ b'"' ∷ []
unfolding marshal_json
two_ports-json = refl

no_ports-json :
    (unmarshal_json (marshal_json (record { values = [] })) (record { values = [] })).values
    ≡ [] ∷ []
unfolding marshal_json unmarshal_json
no_ports-json = refl

unmarshal_json-marshal_json_example :
    (unmarshal_json (marshal_json two_ports) (record { values = [] })).values
    ≡ [] ++ elim two_ports.values [ [] ↦ [] ∷ [] | v ∷ vs ↦ v ∷ vs ]
unmarshal_json-marshal_json_example =
    unmarshal_json-marshal_json two_ports (record { values = [] })
      (
        ((λ e. cc, λ e. cc), ((λ e. cc, λ e. cc), tt)),
        (((λ e. cc, λ e. cc), ((λ e. cc, λ e. cc), ((λ e. cc, λ e. cc), tt))), tt),
      )
