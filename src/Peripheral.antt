-- ===== src/Peripheral.antt =====
-- src/peripheral.h and src/peripheral.cc: the object that JavaScript connects to a device with.
pub mod State
pub mod Replies
pub mod Dispatch
pub mod Methods
pub mod Data
pub mod Connect
pub mod Guards
pub mod Closing
pub mod Owned
