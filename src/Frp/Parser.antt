-- ===== src/Frp/Parser.antt =====
-- frp/utils/parser.go: `ParseClientConfig` and `Marshal`, and the library that `Execute` has by them.
-- The configuration types of frp, its loader and their methods `Complete`, and the TOML encoder, are
-- the parameter `FrpLibrary`.
use k8s_explore.Base.{
  String, List, [], ◌∷◌, ◌++◌, ◌≡◌, refl, arith, foreign, wrapped, Result, ok, err, Result-cases,
  inl, inr, append_assoc, append-nil, map, ◌∙◌, ap,
}
use k8s_explore.Base.Dict.{Dict}
use k8s_explore.Frp.Config.{Common, Section, Library, create_toml, execute}
use k8s_explore.KubeFwd.{ServicePair}

-- `complete_common` sets the defaults of the client's configuration; `complete_proxy` does so for a
-- proxy of a user, `complete_visitor` for a visitor of a client.
pub record FrpLibrary : Type 1 where
  pub Failure : Type 0
  pub Client : Type 0
  pub ClientCommonConfig : Type 0
  pub ProxyConfigurer : Type 0
  pub VisitorConfigurer : Type 0
  pub load_configure :
      String → Result Failure (ClientCommonConfig × List ProxyConfigurer × List VisitorConfigurer)
  pub user : ClientCommonConfig → String
  pub complete_common : ClientCommonConfig → ClientCommonConfig
  pub complete_proxy : String → ProxyConfigurer → ProxyConfigurer
  pub complete_visitor : ClientCommonConfig → VisitorConfigurer → VisitorConfigurer
  pub encode : Dict Section → Result Failure String
  pub new_service :
      ClientCommonConfig × List ProxyConfigurer × List VisitorConfigurer → Result Failure Client

-- The loops that append each element to a slice, and the ones that complete each element.
abbrev pub append_all {ℓ} : {A : Type ℓ} → List A → List A → List A
append_all done [] = done
append_all done (x ∷ xs) = append_all (done ++ x ∷ []) xs

abbrev pub complete_all {ℓ} : {A : Type ℓ} → (A → A) → List A → List A
complete_all complete [] = []
complete_all complete (x ∷ xs) = complete x ∷ complete_all complete xs

module _ (frp : FrpLibrary) where
  abbrev pub ClientConfigs : Type 0
  ClientConfigs = frp.ClientCommonConfig × List frp.ProxyConfigurer × List frp.VisitorConfigurer

  -- `ParseClientConfig`
  unfoldable pub parse_client_config : String → Result frp.Failure ClientConfigs
  parse_client_config toml = elim (frp.load_configure toml) [
    | err e ↦ err e
    | ok all_cfg ↦
        let proxies = append_all [] all_cfg.1 in
        let visitors = append_all [] all_cfg.2 in
        let common = frp.complete_common all_cfg.0 in
        ok (
          common,
          complete_all (frp.complete_proxy (frp.user common)) proxies,
          complete_all (frp.complete_visitor common) visitors,
        )
  ]

  abbrev pub frp_library : Library
  frp_library = record {
    Config = ClientConfigs;
    Client = frp.Client;
    Failure = frp.Failure;
    marshal = frp.encode;
    parse_client_config = parse_client_config;
    new_service = frp.new_service;
  }

append_all-append {ℓ} : {A : Type ℓ} (done xs : List A) → append_all done xs ≡ done ++ xs
append_all-append done [] = rw (append-nil done) refl
append_all-append done (x ∷ xs) =
    append_all-append (done ++ x ∷ []) xs ∙ append_assoc done (x ∷ []) xs

complete_all-map {ℓ} : {A : Type ℓ} (f : A → A) (xs : List A) → complete_all f xs ≡ map f xs
complete_all-map f [] = refl
complete_all-map f (x ∷ xs) = ap (λ ys. f x ∷ ys) (complete_all-map f xs)

completed {ℓ} :
    {A : Type ℓ} (f : A → A) (xs : List A) → complete_all f (append_all [] xs) ≡ map f xs
completed f xs = ap (complete_all f) (append_all-append [] xs) ∙ complete_all-map f xs

module _ (frp : FrpLibrary) where
  -- `Execute` makes the client from the loaded configuration, each part completed: the proxies for the
  -- user that the completed configuration of the client has.
  pub execute-frp_library :
      (c : Common) (pairs : List ServicePair)
      → execute (frp_library frp) c pairs
        ≡ elim (frp.load_configure (create_toml (frp_library frp) c pairs)) [
          | err e ↦ err (wrapped "fail to start frpc. more info" (foreign e))
          | ok (common, proxies, visitors) ↦
              let common' = frp.complete_common common in
              elim (frp.new_service (
                common',
                map (frp.complete_proxy (frp.user common')) proxies,
                map (frp.complete_visitor common') visitors,
              )) [ err e ↦ err (foreign e) | ok client ↦ ok client ]
        ]
  unfolding execute parse_client_config
  execute-frp_library c pairs =
      elim (Result-cases (frp.load_configure (create_toml (frp_library frp) c pairs))) [
        | inr (e, failed) ↦ ground (arith, failed)
        | inl ((common, proxies, visitors), loaded) ↦
            let common' = frp.complete_common common in
            ground (
              arith,
              loaded,
              completed (frp.complete_proxy (frp.user common')) proxies,
              completed (frp.complete_visitor common') visitors,
            )
      ]
