-- ===== src/Chain.antt =====
-- The package chain: the messages that it builds.
pub mod Base58
pub mod CompactU16
pub mod SolMessage
pub mod SolProgram
pub mod Rpc
pub mod EthFees
pub mod Abi
