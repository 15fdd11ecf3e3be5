-- ===== src/Chains.antt =====
-- yubiwallet/examples: the programs that sign transactions of several chains with the library.
pub mod Encoding
pub mod Readers
pub mod Steps
pub mod Bitcoin
pub mod Solana
pub mod Sui
pub mod Ethereum
