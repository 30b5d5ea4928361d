-- ===== src/Failuresim.antt =====
-- internal/failuresim: the executable model of the payment protocols.
pub mod Types
pub mod Hashing
pub mod Book
pub mod World
pub mod Effects
pub mod Payments
pub mod Credits
pub mod Releases
pub mod Cashback
pub mod Certificates
pub mod Transfers
pub mod Arrivals
pub mod Sagas
pub mod Fraud
pub mod External
pub mod Genesis
pub mod Delivery
pub mod Runs
pub mod Fencing
pub mod Bounds
pub mod Rewards
pub mod Funds
pub mod Tests
