-- ===== src/Wallet.antt =====
-- The views of the wallet: payments that come in and those that were made, the address to receive on, and
-- the password.
pub mod Amounts
pub mod Exact
pub mod Notices
pub mod Payments
pub mod Transactions
pub mod Password
pub mod Change
pub mod Receive
pub mod Shown
mod Tests
