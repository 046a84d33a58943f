-- ===== src/Att.antt =====
-- src/att.h and src/att.cc: the client of the attribute protocol.
pub mod State
pub mod Respond
pub mod Request
pub mod Read
pub mod Collect
pub mod Session
pub mod Complete
pub mod Invariant
pub mod Reach
pub mod Settle
pub mod Ledger
pub mod Errors
pub mod Notify
pub mod Misdirected
pub mod Writes
pub mod Total
