-- ===== src/Libs.antt =====
-- The Cython layer, ucp/_libs: the wrappers of UCX's handles that the asyncio layer calls.
pub mod Ucs
pub mod UcxObject
pub mod UcxEndpoint
pub mod Arr
pub mod ActiveMessage
pub mod Inflight
pub mod Rkey
pub mod AmSend
pub mod AmReceive
pub mod Request
pub mod Transfer
pub mod Rma
pub mod Config
pub mod Utils
pub mod UcxAddress
pub mod UcxWorker
pub mod EndpointMaking
pub mod UcxListener
pub mod Topology
pub mod RemoteKey
pub mod Ucxio
pub mod Testing
