-- ===== src/Consts/Rtnl.antt =====
-- src/consts/rtnl.rs: the constants of rtnetlink, in six groups.
pub mod Families
pub mod Routes
pub mod Neighbours
pub mod Links
pub mod Attrs
pub mod Interfaces
