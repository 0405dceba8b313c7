-- ===== src/KubeClient.antt =====
-- kubeclient/pool.go: the pool of Kubernetes contexts, the clients that each context builds on
-- first use, and the methods of `ClientPool`. A `*Context` is a reference, an index into the store;
-- `nil` is `none`. A call of a method is one step here; `Races` is about the calls that the pool's lock
-- keeps apart, `Locked` about the statements of the two methods that build a client.
-- A client that a context has built is a field of the context's record in the store.
mod Clients
mod Pool
pub mod Valid
pub mod Caching
pub mod Reach
pub mod Registry
pub mod View
pub mod Races
pub mod Locked
unfoldable pub use Clients.*
unfoldable pub use Pool.*
