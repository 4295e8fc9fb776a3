-- ===== src/Indexer.antt =====
-- app/services/onchain_indexer.py with app/services/rpc_client.py: the index of transfers and agent
-- events. Times are in seconds here.
pub mod Address
pub mod Scan
pub mod Rounds
pub mod Covers
pub mod Timestamps
pub mod Times
pub mod Store
pub mod Canonical
pub mod Chunks
pub mod Agree
pub mod Again
pub mod Keyed
pub mod Repeats
pub mod Keys
pub mod Cycles
pub mod Windows
