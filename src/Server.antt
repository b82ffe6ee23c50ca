-- ===== src/Server.antt =====
-- playgate-server: the tables (Db), the queue positions (Queue), the handlers (Api), and the theorems on
-- what the requests do.
pub mod Queue
pub mod Db
pub mod Api
pub mod Lifecycle
pub mod Redeem
pub mod Interleaved
pub mod Race
pub mod Access
pub mod Requests
pub mod Positions
pub mod Issue
pub mod Verified
pub mod Kick
pub mod Flags
mod Alone
pub mod Examples
