-- ===== src/Rtnl.antt =====
-- src/rtnl.rs: the routing messages and their attributes.
pub mod Rtattr
pub mod Link
pub mod Address
pub mod Route
pub mod Neighbour
pub mod Queueing
