-- ===== src/Cluster.antt =====
-- kubefwd/kube/kube.go: what the forwarder asks of a cluster. client-go and the port forwarder are
-- libraries outside the repository, parameters of each child. An error made by `fmt.Errorf` is a
-- constructor with the values of its text. `Access` has the reading methods and the permission check,
-- `Upsert` the creation of a tunnel resource, `Connect` the making of a client.
pub mod Access
pub mod Checks
pub mod Upsert
pub mod Stored
pub mod Connect
