-- ===== src/Forward/Launch.antt =====
-- kubefwd/kubefwd.go: `Execute`, up to the goroutines that it starts, for a client of kubefwd/kube.
-- The library kubefwd and the hosts library are the parameters `Platform` and `HostsLibrary`.
use k8s_explore.Base.{String, Option, none, some, ◌≡◌, ◌⊎◌, Result, ok, err}
use k8s_explore.Cluster.Connect.{Loaders}
use k8s_explore.Frp.Hosts.{HostsLibrary, hosts_cleanup}
use k8s_explore.KubeFwd.{kubetunnel_slug}

-- The hosts file that the system has, its backup, and the REST client; where `GetRESTClient` fails the
-- client is nil.
pub record Platform (hosts : HostsLibrary) : Type 1 where
  pub Failure : Type 0
  pub RestClient : Type 0
  pub new_hosts_default : Result Failure hosts.Hosts
  pub backup_host_file : hosts.Hosts → Result Failure String
  pub get_rest_client : Option RestClient

module _ (hosts : HostsLibrary) (platform : Platform hosts) (l : Loaders) where
  -- The fields of `NamespaceOpts` that are not constants; `Domain` is one.
  pub record NamespaceOpts : Type 0 where
    pub client_set : l.Client
    pub namespace : String
    pub host_file : hosts.Hosts
    pub client_config : l.Config
    pub domain : String
    pub rest_client : platform.RestClient

  -- The end of the process, the panic of a nil pointer, or the namespace whose watch is started.
  pub data Launch : Type 0 where
    exited : Launch
    panicked : Launch
    started : NamespaceOpts → Launch

  -- `Execute`
  unfoldable pub execute : l.Client × Option l.Config × String → Launch
  execute kube = elim platform.new_hosts_default [
    | err _ ↦ exited
    | ok file ↦ elim (platform.backup_host_file file) [
      | err _ ↦ exited
      | ok _ ↦
          let cleaned = hosts_cleanup hosts file in
          elim kube.1 [
            | none ↦ panicked
            | some config ↦ elim platform.get_rest_client [
              | none ↦ panicked
              | some rest ↦ started (record {
                client_set = kube.0;
                namespace = kube.2;
                host_file = cleaned;
                client_config = config;
                domain = kubetunnel_slug;
                rest_client = rest;
              })
            ]
          ]
    ]
  ]

-- The hosts file cannot be read, or the one that is read cannot be backed up.
abbrev pub NoHosts : (hosts : HostsLibrary) → Platform hosts → Type 0
NoHosts hosts platform =
    ((e : platform.Failure) × (platform.new_hosts_default ≡ err e))
    ⊎ ((file : hosts.Hosts) × (e : platform.Failure) × (platform.new_hosts_default ≡ ok file)
        × (platform.backup_host_file file ≡ err e))

-- The hosts file is read and backed up.
abbrev pub HasHosts : (hosts : HostsLibrary) → Platform hosts → hosts.Hosts → Type 0
HasHosts hosts platform file =
    (text : String) × (platform.new_hosts_default ≡ ok file)
    × (platform.backup_host_file file ≡ ok text)
