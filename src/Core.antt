-- ===== src/Core.antt =====
-- ucp/core.py: the asyncio layer.
pub mod CtrlMsg
pub mod Endpoint
pub mod Pair
pub mod PeerInfo
pub mod Context
pub mod Objects
pub mod Listener
