-- ===== src/Tests.antt =====
-- Runs on concrete buffers. They need some implementation of the parameters: `Tests.Little` has
-- plain lists with a position, and integers in little-endian order.
pub mod Little
mod Attributes
mod Constants
mod Messages
pub mod Routing
mod Neighbours
pub mod Socket
mod Resolve
mod Groups
mod Stream
mod Text
mod Netfilter
pub mod Routes
mod Families
mod AnyBytes
