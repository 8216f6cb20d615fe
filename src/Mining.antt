-- ===== src/Mining.antt =====
-- internal/mining/mining.go: the serialisation of coinbase transactions and block headers, base58
-- addresses, the developer fee and the Merkle branch.
pub mod Wire
mod Tests
pub mod Reverse
pub mod Merkle
pub mod Transaction
pub mod Coinbase
pub mod Base58
