-- ===== src/Accounting.antt =====
-- internal/accounting: the share store, the payout engine over its database, and the arithmetic that
-- shares out a block's reward.
pub mod Migrate
pub mod Store
pub mod Allocate
pub mod Worker
pub mod Database
pub mod Session
pub mod Engine
pub mod Sync
pub mod Settle
pub mod Payout
pub mod Owed
mod Tests
mod StoreTests
