-- ===== src/Rpc.antt =====
-- The parts of rpcprovider/.
pub mod Buffer
pub mod Crypt
pub mod Dispatch
pub mod Io
pub mod Keypair
pub mod Parser
pub mod Process
pub mod Queue
pub mod Request
pub mod Ring
pub mod Shell
pub mod ThreadPool
