-- ===== src/Tests.antt =====
-- Concrete runs that the properties apply to.
mod Sample
mod Values
mod Client
mod Wire
mod Outside
mod Adapter
mod Device
mod Pages
mod Sockets
