-- ===== src/Lib.antt =====
-- k8s-explore: a service in front of Kubernetes clusters. At start-up main.go reads the kubeconfig
-- and fills a pool of contexts (kubeclient). The REST handlers (api/rest) and the calls that arrive
-- on a websocket (api/stream) take their clients from that pool.
--
-- Base: results and errors as values, Go maps as association lists, lists over the native ℕ. `Orders`
-- has the orders in which Go's range can visit one map.
--
-- KubeClient: kubeclient/pool.go. `Clients` has `Context` with `DynamicClient` and
-- `DiscoveryClient`, `Pool` has `ClientPool` with all its methods. A `*Context` is an index into the
-- store of the pool, since handlers share contexts and write their cached clients. The client
-- constructors of client-go and the reading of the uid of kube-system are fields of `Api`. `Valid`
-- defines the well-formed pools, `Caching` is about the clients, `Reach` about runs of the methods,
-- `Registry` has what users see of the pool, whatever its pointers and its cached clients are, `View`
-- is about how the methods act on it, `Races` about the lock of the pool: which methods can be inside at once, and which fields they touch.
-- `Locked` has the two methods of a context that build its clients, called by any number of goroutines:
-- their statements are steps of one state with the mutex of the context, and a constructor may return
-- something else at each call; `Serial` has the same calls one after another, in an order that
-- keeps real time, and `Pooled` is about a
-- context of the pool. Elsewhere a call of them is one step, and a constructor is a function of
-- the configuration.
--
-- Startup: `initKubeClientPool` (`init_loop`, `finish`) and `initKubeClientPoolWithRetry` (`retry`)
-- of main.go. The kubeconfig loader of client-go is the parameter `Loader`; each attempt of the retry
-- loop has a loader and a reading of the clock of its own. `Choose` says which context is to become
-- the current one, without the loop's state. The retry loop runs on fuel, one unit for each round: a
-- round sleeps for a pause, so `max_wait / pause + 1` units are enough; `Attempts` counts its calls.
-- `Visits` and `Order` are about the order in which the map of the kubeconfig is visited, which Go leaves open.
-- `Run` is `run` of main.go up to the start of its server.
--
-- Rest: the handlers of api/rest. `Gin` is the monad in which they run: replies written, calls sent
-- to the cluster, the pool, and the panic of a nil pointer. `Objects` is
-- api/rest/kube/objects/objects.go, `Contexts` is api/rest/kube/contexts/contexts.go, `Resources` is
-- api/rest/kube/resources/resources.go, `Environment` is api/rest/environment/environment.go. What
-- a cluster answers and what the decoders return are parameters.
--
-- Rpc: api/stream/rpc/rpc.go. `Handle` runs in one goroutine for each message: a task that makes the
-- steps `dispatch`, `register`, `unregister` and those of its call handler, interleaved with the
-- steps of all others in any order (`Step`, `Reach`).
--
-- Stream: api/stream/stream.go. `dispatch_loop` is the loop that reads and dispatches,
-- `dispatch_message` one goroutine that it starts; encoding/json and the connection are parameters.
-- `Connection` has all goroutines of a connection as steps of one state, `Refined` is
-- about them and the loop.
--
-- Watch: `WatchHandler.Handle` of api/stream/rpc/kube/objects/watch.go, the call handler that `Rpc`
-- runs between its steps `register` and `unregister`. The informer is a parameter, its events are
-- given as a list. `Delivery` has the goroutines between the informer and the connection as steps of
-- one state: the event functions, the call handler and `dispatchMessage`, with their channel.
--
-- Server: the REST service that `run` of main.go starts. A request runs one handler of Rest on the
-- pool of the start-up (`serve`); a panic ends its request only. `Serving` is about runs of requests.
-- `Http` leads from an HTTP request to the handler and the fields that it reads, `Urls` says which
-- handler the URLs of kinds and objects reach, `Answered` puts start-up, routes and handlers together.
-- Routes: the table of routes of `run`. Which route gin takes for a request is the parameter
-- `Router`, with what gin documents of it: a literal segment goes before a parameter. The redirection of
-- a path without its last slash is left out. RequestId: api/handler.go and logging/logging.go, the
-- request id of a request.
--
-- Notify: frp/notify/cancellation_channel.go, the channel that is closed once, under any order of
-- the steps of the goroutines that share it. KubeFwd: kubefwd/kube/utils.go, which turns a service
-- into a tunnel resource and into the pairs of the frp client; `Order` is about the order in which the
-- map of local ports is visited. Ports: the text and JSON forms of the
-- ports of such a resource (kubetunnel/kubetunnel_resource.go), on lists of bytes.
--
-- Frp: the manager of the frp client. `Sessions` is `RunFRPc` of frp/manager.go with the goroutines
-- of `Execute` (frp/frpc_client.go), as steps of one state with a session for each client; a session
-- has the states of its cancellation channel that the manager can tell apart. `Polling` has the
-- loops that sleep and look again, on fuel, one unit for each round: fuel up to a round in which the
-- loop may end is enough. `Config` is the configuration of the client and `Execute` up to its
-- goroutine, `Parser` frp/utils/parser.go, `Tunnels` that configuration for the pairs of KubeFwd,
-- `Hosts` the changes of the hosts file and `Available` the test of a port (frp/utils/tcphelper.go),
-- with the waits of frp/manager.go on it. The frp, TOML and hosts libraries and the network are
-- parameters.
--
-- Forward: the handlers of service events of kubefwd/kubefwd.go and their runs, in `Watching` what
-- the informer is asked for, and in `Launch` its `Execute`; label selectors are a parameter, what the handlers ask of the registry is recorded.
-- Cluster: kubefwd/kube/kube.go. `Access` has the methods that read and check, `Upsert` the creation
-- of a tunnel resource, `Connect` the making of a client; the calls of client-go are parameters.
--
-- Shutdown: how a process of the tunnel side ends. frp/notify/killsignal/killsignal.go and the
-- goroutines that `Execute` of kubefwd/kubefwd.go starts, as steps of one state with a clock in
-- milliseconds; the channel is that of Notify. When the informer and the registry end is a parameter.
--
-- main.go uses none of Notify, Shutdown, KubeFwd, Ports, Frp, Forward and Cluster: they are the tunnel side
-- of the repository, which main.go does not start.
--
-- Tests: small worlds, runs of the definitions on them, and the theorems at concrete inputs.
--
-- Not modelled: the command lines (pflag and cobra, and the help text of kubefwd), log lines and
-- where they are written, how a request is upgraded to a websocket, the decoding of a call, the
-- informers themselves, whose events are lists, and what happens to a server that runs.
pub mod Base
pub mod KubeClient
pub mod Startup
pub mod Rest
pub mod Rpc
pub mod Stream
pub mod Watch
pub mod Notify
pub mod Shutdown
pub mod KubeFwd
pub mod Ports
pub mod Frp
pub mod Forward
pub mod Cluster
pub mod Routes
pub mod RequestId
pub mod Server
pub mod Tests
