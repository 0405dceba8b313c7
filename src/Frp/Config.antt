-- ===== src/Frp/Config.antt =====
-- frp/frpc_client.go: the configuration of the frp client, and `Execute` up to the start of its
-- goroutine. The TOML encoder, frp's parser and the client's constructor are libraries outside the
-- repository: they are the parameter `Library`.
use k8s_explore.Base.{
  String, eq_iff, some, List, [], ◌∷◌, ◌≡◌, ◌≢◌, refl, sym, ◌∙◌, arith, All, Error, wrapped,
  foreign, Result, ok, err,
}
use k8s_explore.Base.Dict.{Dict, lookup, insert, lookup-insert_self, lookup-insert_ne}
use k8s_explore.KubeFwd.{Service, ServicePair}

-- `Common` of frp/models/frpc_client_config.go
pub record Common : Type 0 where
  pub server_address : String
  pub server_port : String

-- A value of the map `FrpcClientConfig`.
pub data Section : Type 0 where
  common : Common → Section
  service : Service → Section

pub record Library : Type 1 where
  pub Config : Type 0
  pub Client : Type 0
  pub Failure : Type 0
  pub marshal : Dict Section → Result Failure String
  pub parse_client_config : String → Result Failure Config
  pub new_service : Config → Result Failure Client

-- `frpConfig[element.Name] = element.Service`, for each pair.
abbrev pub add_services : List ServicePair → Dict Section → Dict Section
add_services [] config = config
add_services (p ∷ ps) config = add_services ps (insert p.name (service p.service) config)

-- The map of `createToml`.
unfoldable pub frp_config : Common → List ServicePair → Dict Section
frp_config c pairs = add_services pairs (("common", common c) ∷ [])

module _ (lib : Library) where
  -- `createToml`: an error of the encoder is dropped, and its text is "".
  unfoldable pub create_toml : Common → List ServicePair → String
  unfolding frp_config
  create_toml c pairs = elim (lib.marshal (frp_config c pairs)) [ ok text ↦ text | err _ ↦ "" ]

  -- `Execute`: the client whose goroutine it starts.
  unfoldable pub execute : Common → List ServicePair → Result (Error lib.Failure) lib.Client
  unfolding create_toml
  execute c pairs = elim (lib.parse_client_config (create_toml c pairs)) [
    | err e ↦ err (wrapped "fail to start frpc. more info" (foreign e))
    | ok config ↦ elim (lib.new_service config) [ err e ↦ err (foreign e) | ok client ↦ ok client ]
  ]

-- No two pairs share a name, and none is named "common".
abbrev pub Distinct : List ServicePair → Type 0
Distinct [] = Unit
Distinct (p ∷ ps) = (p.name ≢ "common") × All (λ q. q.name ≢ p.name) ps × Distinct ps

abbrev pub Without : String → List ServicePair → Type 0
Without name = All (λ q. q.name ≢ name)

add_services_other :
    (name : String) (ps : List ServicePair) (config : Dict Section)
    → Without name ps
    → lookup name (add_services ps config) ≡ lookup name config
add_services_other name [] config h = refl
add_services_other name (p ∷ ps) config (ne, h) =
    add_services_other name ps (insert p.name (service p.service) config) h
    ∙ lookup-insert_ne p.name name (service p.service) config (λ e. ne (sym e))

Distinct-Without : (ps : List ServicePair) → Distinct ps → Without "common" ps
Distinct-Without [] h = tt
Distinct-Without (p ∷ ps) (ne, _, h) = (ne, Distinct-Without ps h)

abbrev pub Listed : Dict Section → List ServicePair → Type 0
Listed config = All (λ p. lookup p.name config ≡ some (service p.service))

add_services-Listed :
    (ps : List ServicePair) (config : Dict Section)
    → Distinct ps
    → Listed (add_services ps config) ps
add_services-Listed [] config h = tt
add_services-Listed (p ∷ ps) config (_, others, h) = (
  add_services_other p.name ps (insert p.name (service p.service) config) others
      ∙ lookup-insert_self p.name (service p.service) config,
  add_services-Listed ps (insert p.name (service p.service) config) h,
)

-- The configuration has the common section and the service of each pair under its name, where no two
-- pairs share a name and none is named "common".
pub frp_config_lem :
    (c : Common) (pairs : List ServicePair)
    → Distinct pairs
    → (lookup "common" (frp_config c pairs) ≡ some (common c)) × Listed (frp_config c pairs) pairs
unfolding frp_config
frp_config_lem c pairs h = (
  add_services_other "common" pairs _ (Distinct-Without pairs h)
      ∙ ground (arith, eq_iff "common" "common"),
  add_services-Listed pairs _ h,
)
