-- ===== src/Tests.antt =====
-- Runs of the model at concrete inputs, and the theorems at inputs that meet their hypotheses.
pub mod World
pub mod Pool
pub mod Races
pub mod Locked
pub mod Startup
pub mod Rest
pub mod Rpc
pub mod Stream
pub mod Connection
pub mod Watch
pub mod Delivery
pub mod Notify
pub mod Shutdown
pub mod KubeFwd
pub mod Ports
pub mod Frp
pub mod Available
pub mod Forward
pub mod Cluster
pub mod Service
