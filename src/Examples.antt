-- ===== src/Examples.antt =====
-- The theorems at concrete inputs: one trade between two accounts, in a small world.
pub mod World
pub mod Checks
pub mod Trading
pub mod Managing
pub mod Selling
pub mod Watching
pub mod Books
pub mod Accounts
pub mod Messages
pub mod Answering
pub mod Blocks
