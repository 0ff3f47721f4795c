-- ===== src/Ledger.antt =====
-- src/contract and src/store/storage.h: the contracts, and the storage that loads and flushes them.
pub mod Action
pub mod Contracts
pub mod Storage
pub mod Fields
pub mod Account
pub mod Token
pub mod Views
pub mod Steps
pub mod Transfer
pub mod Backing
pub mod Trade
pub mod BuySell
pub mod Nonce
pub mod Keeps
