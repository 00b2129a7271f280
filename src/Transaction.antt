-- ===== src/Transaction.antt =====
-- Transactions and their pool: src/webrequest/transaction.hpp and src/webrequest/transaction.cpp.
pub mod Id
pub mod Pool
pub mod Operations
pub mod Invariant
pub mod Preservation
pub mod System
pub mod Construction
pub mod Exchange
pub mod Lifecycle
pub mod Garbage
pub mod Expiry
pub mod Faults
pub mod Disposal
pub mod Sample
mod Tests
