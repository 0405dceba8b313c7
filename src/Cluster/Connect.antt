-- ===== src/Cluster/Connect.antt =====
-- kubefwd/kube/kube.go: `New`, which makes a client from inside a cluster or from a kubeconfig. The
-- configuration loaders of client-go are the parameter `Loaders`.
use k8s_explore.Base.{
  String, str_eq, Option, none, some, ◌≡◌, ◌↔◌, arith, inl, inr, Result, ok, err, if◌then◌else◌,
  Result-cases,
}

-- `client_config` and `namespace` are the methods of a `clientcmd.ClientConfig`; where `Namespace`
-- fails its text is "".
pub record Loaders : Type 1 where
  pub Failure : Type 0
  pub Config : Type 0
  pub Client : Type 0
  pub ClientConfig : Type 0
  pub in_cluster_config : Result Failure Config
  pub new_for_config : Config → Result Failure Client
  pub deferred : ClientConfig
  pub load_from_file : String → Result Failure ClientConfig
  pub client_config : ClientConfig → Result Failure Config
  pub namespace : ClientConfig → String

-- An error of `mustCreateOutOfClusterKubeClient`, by the step that failed.
pub data Fault (E : Type 0) : Type 0 where
  no_file : String → E → Fault E
  no_config : E → Fault E
  no_client : E → Fault E

module _ (l : Loaders) where
  -- `Kube`
  pub record Connected : Type 0 where
    pub inner_kube_client : l.Client
    pub config : l.Config
    pub namespace : String

  -- `createInClusterKubeClient`
  unfoldable pub create_in_cluster_kube_client : Result l.Failure (l.Client × l.Config)
  create_in_cluster_kube_client = elim l.in_cluster_config [
    | err e ↦ err e
    | ok config ↦ elim (l.new_for_config config) [ err e ↦ err e | ok client ↦ ok (client, config) ]
  ]

  -- `kubeConfig` of `mustCreateOutOfClusterKubeClient`
  abbrev pub kube_config : String → Result (Fault l.Failure) l.ClientConfig
  kube_config kube_conf =
      if str_eq kube_conf ""
      then ok l.deferred
      else elim (l.load_from_file kube_conf) [ err e ↦ err (no_file kube_conf e) | ok c ↦ ok c ]

  -- `mustCreateOutOfClusterKubeClient`
  unfoldable pub create_out_of_cluster_kube_client :
      String → Result (Fault l.Failure) (l.Client × l.ClientConfig)
  create_out_of_cluster_kube_client kube_conf = elim (kube_config kube_conf) [
    | err e ↦ err e
    | ok c ↦ elim (l.client_config c) [
      | err e ↦ err (no_config e)
      | ok config ↦ elim (l.new_for_config config) [
        | err e ↦ err (no_client e)
        | ok client ↦ ok (client, c)
      ]
    ]
  ]

  -- `New`; its error is nil on every path. `none` is a panic: the error of the second attempt is
  -- dropped, and a method of the nil `kubeConfig` is called. The error of that method is dropped too,
  -- so the configuration may be nil.
  unfoldable pub new_kube : String → String → Option (l.Client × Option l.Config × String)
  new_kube kube_conf namespace = elim create_in_cluster_kube_client [
    | ok (client, config) ↦ some (client, some config, namespace)
    | err _ ↦ elim (create_out_of_cluster_kube_client kube_conf) [
      | err _ ↦ none
      | ok (client, c) ↦ some (
        client,
        elim (l.client_config c) [ ok config ↦ some config | err _ ↦ none ],
        if str_eq namespace "" then l.namespace c else namespace,
      )
    ]
  ]

  -- `New` panics exactly if neither way to make a client works.
  pub new_kube-none :
      (kube_conf namespace : String)
      → (new_kube kube_conf namespace ≡ none) ↔ (
          ((e : l.Failure) × (create_in_cluster_kube_client ≡ err e))
          × ((e : Fault l.Failure) × (create_out_of_cluster_kube_client kube_conf ≡ err e)))
  unfolding new_kube
  new_kube-none kube_conf namespace = elim (Result-cases create_in_cluster_kube_client) [
    | inl (made, inside) ↦ (λ h. ground (arith, inside), λ h. ground (arith, inside, h.0.1))
    | inr (e, outside) ↦ elim (Result-cases (create_out_of_cluster_kube_client kube_conf)) [
      | inl (made, done) ↦ (λ h. ground (arith, outside, done), λ h. ground (arith, done, h.1.1))
      | inr (e', failed) ↦ (λ h. ((e, outside), (e', failed)), λ h. ground (arith, outside, failed))
    ]
  ]

  create_in_cluster_ok :
      {client : l.Client} {config : l.Config}
      → create_in_cluster_kube_client ≡ ok (client, config)
      → l.new_for_config config ≡ ok client
  unfolding create_in_cluster_kube_client
  create_in_cluster_ok h = elim (Result-cases l.in_cluster_config) [
    | inr (e, failed) ↦ ground (arith, failed)
    | inl (made, loaded) ↦ elim (Result-cases (l.new_for_config made)) [
      | inr (e, failed) ↦ ground (arith, loaded, failed)
      | inl (c, done) ↦ ground (arith, loaded, done)
    ]
  ]

  create_out_of_cluster_ok :
      (kube_conf : String) {client : l.Client} {c : l.ClientConfig}
      → create_out_of_cluster_kube_client kube_conf ≡ ok (client, c)
      → (config : l.Config) × (l.client_config c ≡ ok config)
        × (l.new_for_config config ≡ ok client)
  unfolding create_out_of_cluster_kube_client
  create_out_of_cluster_ok kube_conf {client} {c} h = elim (Result-cases (l.client_config c)) [
    | inr (e, failed) ↦ ground (arith, failed)
    | inl (config, loaded) ↦ (config, loaded, ground (arith, loaded))
  ]

  -- A client that `New` returns has a configuration, and was made from it.
  pub new_kube_config :
      (kube_conf namespace : String) {r : l.Client × Option l.Config × String}
      → new_kube kube_conf namespace ≡ some r
      → (config : l.Config) × (r.1 ≡ some config) × (l.new_for_config config ≡ ok r.0)
  unfolding new_kube
  new_kube_config kube_conf namespace h = elim (Result-cases create_in_cluster_kube_client) [
    | inl ((client, config), inside) ↦
        (config, ground (arith, inside), ground (arith, inside, create_in_cluster_ok inside))
    | inr (e, outside) ↦ elim (Result-cases (create_out_of_cluster_kube_client kube_conf)) [
      | inr (e', failed) ↦ ground (arith, outside, failed)
      | inl ((client, c), done) ↦
          let (config, loaded, made) = create_out_of_cluster_ok kube_conf done in
          (config, ground (arith, outside, done, loaded), ground (arith, outside, done, made))
    ]
  ]
